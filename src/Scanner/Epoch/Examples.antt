-- ===== src/Scanner/Epoch/Examples.antt =====
-- Scans of the short chain, through the stages.
use dabeacon_indexer.Prelude.{
  ◌⊎◌, true, false, ◌&&◌, lookup, [], ◌∷◌, nat_key, pair_key, All, ◌≡◌, ◌≢◌, refl,
}
use dabeacon_indexer.Error.{ok, err, beacon_data_unavailable}
use dabeacon_indexer.Chain.{epoch_start_slot}
use dabeacon_indexer.Beacon.Types.{BlockRewards}
use dabeacon_indexer.Beacon.Node.{BeaconNode}
use dabeacon_indexer.Store.Tables.{Store}
use dabeacon_indexer.Store.Completion.{is_scanned}
use dabeacon_indexer.Store.Writes.{proposal}
use dabeacon_indexer.Scanner.Proposals.{rewarded_proposal, persist_live_proposal_rewards}
use dabeacon_indexer.Scanner.Proposals.Range.{
  IsInRange, IsRefused, persist_live_proposal_rewards-agree,
}
use dabeacon_indexer.Scanner.Scan.{Scan, after, write, ◌>>=◌}
use dabeacon_indexer.Scanner.Attestations.RootMap.{fetch_blocks_for_slots}
use dabeacon_indexer.Scanner.Bits.Examples.{hex_decode}
use dabeacon_indexer.Scanner.Attestations.Dense.{process_epoch_attestation_duties}
use dabeacon_indexer.Scanner.Attestations.Dense.Atomic.{process_epoch_attestation_duties_atomic}
use dabeacon_indexer.Scanner.Attestations.Sparse.Examples.{short_spec, node}
use dabeacon_indexer.Scanner.Epoch.{sparse, scan_stages, scan_epoch}
use dabeacon_indexer.Scanner.Epoch.Scope.{IsOf}
use dabeacon_indexer.Scanner.Epoch.SyncScope.{scan_stages-IsOf}
use dabeacon_indexer.Scanner.Epoch.Completion.{AreMarked}
use dabeacon_indexer.Scanner.Epoch.Success.{stages_succeed, scan_epoch_completes}
use dabeacon_indexer.Scanner.Epoch.Isolation.{lookup-scan_epoch}

abbrev store : Store
store = record {
  attestation_duties = [];
  block_proposals = [];
  sync_duties = [];
  completed_scans = (7, 0) ∷ [];
  live_gaps = (7, 1) ∷ (8, 1) ∷ [];
}

abbrev scan : Scan (Unit {0})
scan = scan_epoch short_spec hex_decode node 1 (7 ∷ []) true sparse

scan_epoch_completes_example :
    AreMarked
      (stages_succeed short_spec hex_decode node 1 true sparse (7 ∷ [])
        && (true && is_scanned (7 ∷ []) 1 (7, 1)))
      (7, 1)
      store
      (after short_spec store scan)
scan_epoch_completes_example =
    scan_epoch_completes short_spec hex_decode node 1 true sparse (7 ∷ []) store (7, 1)

lookup-scan_epoch_example :
    lookup (8, 1) (after short_spec store scan).attestation_duties
    ≡ lookup (8, 1) store.attestation_duties
lookup-scan_epoch_example =
    lookup-scan_epoch short_spec hex_decode node 1 true sparse store (8, 1) (7 ∷ []) refl

scan_stages-IsOf_example :
    All
      (IsOf short_spec 1 (7 ∷ []) true)
      (scan_stages short_spec hex_decode node 1 (7 ∷ []) true sparse).0
scan_stages-IsOf_example = scan_stages-IsOf short_spec 1 (7 ∷ []) true hex_decode node sparse

-- A node that cannot be asked for blocks.
abbrev mute : BeaconNode
mute = record node { get_block = λ slot. err beacon_data_unavailable }

failing : (process_epoch_attestation_duties short_spec hex_decode mute 1 (7 ∷ []) true).1 ≢ ok tt
unfolding process_epoch_attestation_duties ◌>>=◌ fetch_blocks_for_slots epoch_start_slot
failing h = cc h

process_epoch_attestation_duties_atomic_example :
    (process_epoch_attestation_duties short_spec hex_decode mute 1 (7 ∷ []) true).0 ≡ []
process_epoch_attestation_duties_atomic_example =
    process_epoch_attestation_duties_atomic short_spec hex_decode mute 1 (7 ∷ []) true failing

abbrev paid : BlockRewards
paid = record {
  proposer_index = 7;
  total = 50;
  attestations = 40;
  sync_aggregate = 5;
  proposer_slashings = 3;
  attester_slashings = 2;
}

persist_live_proposal_rewards-agree_example :
    (IsInRange paid
      × (persist_live_proposal_rewards 4 paid
          ≡ write (proposal 4 (rewarded_proposal 7 paid false))))
    ⊎ IsRefused 4 paid
persist_live_proposal_rewards-agree_example = persist_live_proposal_rewards-agree 4 paid
