-- ===== src/Backfill/Pass/Examples.antt =====
-- A pass over a short chain, of which epoch 1 is still to scan.
use dabeacon_indexer.Prelude.{
  ℕ, true, false, contains_key, lookup, insert, [], ◌∷◌, none, some, nat_key, ◌≤◌, ◌<◌, ◌≡◌, refl,
  arith,
}
use dabeacon_indexer.Error.{ok, ok-injective, for_each}
use dabeacon_indexer.Chain.{epoch_start_slot, slot_to_epoch}
use dabeacon_indexer.Beacon.Types.{attestations}
use dabeacon_indexer.Store.Tables.{is_completed}
use dabeacon_indexer.Store.Completion.{validators_with_completed_scan}
use dabeacon_indexer.Scanner.Bits.Examples.{hex_decode}
use dabeacon_indexer.Scanner.Bits.{
  trim_start_0x, decode_bitlist, bitlist_bits, split_last, bits_from, byte_bits, leading_zeros,
}
use dabeacon_indexer.Scanner.Rewards.{validate_epoch_response}
use dabeacon_indexer.Scanner.Scan.{for_all, ◌>>=◌}
use dabeacon_indexer.Scanner.Attestations.{inclusion_delay}
use dabeacon_indexer.Scanner.Attestations.Committees.{
  build_committee_map, resolve_pre_electra_committees,
}
use dabeacon_indexer.Scanner.Attestations.Decode.{
  extract_attestation_inclusions, process_resolved_attestation, record_committee_inclusions,
  compute_vote_correctness, process_pre_electra_attestation,
}
use dabeacon_indexer.Scanner.Attestations.Roots.{root_at_or_before, search_back}
use dabeacon_indexer.Scanner.Attestations.Dense.{rewards_map}
use dabeacon_indexer.Scanner.Attestations.Sparse.{probe, probe_slots, scan_forward_for_inclusion}
use dabeacon_indexer.Scanner.Attestations.Sparse.Epoch.{
  process_sparse_duty, process_sparse_duties, process_epoch_attestation_duties_sparse,
}
use dabeacon_indexer.Scanner.Attestations.Sparse.Examples.{short_spec, node}
use dabeacon_indexer.Scanner.Proposals.{
  tracked_proposer_slots, process_tracked_slots, process_epoch_proposals,
}
use dabeacon_indexer.Scanner.Epoch.{
  sparse, scan_attestations, scan_stages, scan_tracked, scan_epoch,
}
use dabeacon_indexer.Backfill.Pass.{
  Config, ValidatorRow, Progress, compute_start, min_start, is_active, active_validators_at, is_due,
  candidates, uncovered, scanned, scan_some, pass_epoch, run_pass, backfill_pass,
}
use dabeacon_indexer.Backfill.Run.{Ended, run_backfill}
use dabeacon_indexer.Backfill.Run.Ends.{run_backfill_ends}
use dabeacon_indexer.Backfill.Pass.Complete.{backfill_pass_completes}

abbrev config : Config
config = record { non_contiguous_backfill = false; max_backfill_depth = none }

abbrev row : ValidatorRow
row = record { activation_epoch = 1; exit_epoch = some 9; last_scanned_epoch = none }

abbrev before : Progress
before = record {
  store = record {
    attestation_duties = [];
    block_proposals = [];
    sync_duties = [];
    completed_scans = [];
    live_gaps = [];
  };
  validators = (7, row) ∷ [];
  scan_state = (7, (1, none)) ∷ [];
}

found : lookup 7 before.validators ≡ some row
unfolding lookup
found = refl

state : lookup 7 before.scan_state ≡ some (1, none)
unfolding lookup
state = refl

due : compute_start false none (1, none) ≤ 1
unfolding compute_start
due = omega arith

not_exited : (exit : ℕ) → row.exit_epoch ≡ some exit → 1 < exit
not_exited exit h = ground arith

succeeds :
    (backfill_pass short_spec hex_decode node sparse config false (7 ∷ []) 1 before).1 ≡ ok tt
unfolding backfill_pass min_start compute_start run_pass pass_epoch scan_some scanned uncovered
    candidates is_due is_active active_validators_at validators_with_completed_scan is_completed
    scan_epoch scan_tracked scan_stages scan_attestations process_epoch_proposals
    tracked_proposer_slots process_tracked_slots process_epoch_attestation_duties_sparse
    process_sparse_duties process_sparse_duty scan_forward_for_inclusion root_at_or_before
    search_back epoch_start_slot probe_slots probe extract_attestation_inclusions attestations
    for_each slot_to_epoch decode_bitlist hex_decode trim_start_0x bitlist_bits split_last
    resolve_pre_electra_committees lookup insert bits_from byte_bits leading_zeros
    process_resolved_attestation contains_key inclusion_delay record_committee_inclusions
    compute_vote_correctness process_pre_electra_attestation build_committee_map rewards_map
    validate_epoch_response for_all ◌>>=◌
succeeds = refl

backfill_pass_completes_example :
    let end = backfill_pass short_spec hex_decode node sparse config false (7 ∷ []) 1 before in
    is_completed end.0.store.completed_scans (7, 1) ≡ true
backfill_pass_completes_example =
    backfill_pass_completes short_spec hex_decode node sparse config false (7 ∷ []) before 1 1 7 row
      (1, none) refl found (omega arith) not_exited state due (omega arith) succeeds

bounded : (k c : ℕ) → ok 5 ≡ ok c → c ≤ 6
bounded k c h = let same = ok-injective h in omega arith

run_backfill_ends_example :
    (end : Ended) × (run_backfill
        (λ k. ok 5)
        true
        short_spec
        hex_decode
        node
        sparse
        config
        7
        1
        before
      ≡ some end)
run_backfill_ends_example =
    run_backfill_ends short_spec hex_decode node sparse config (λ k. ok 5) true 6 bounded 1 before
