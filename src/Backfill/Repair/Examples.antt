-- ===== src/Backfill/Repair/Examples.antt =====
-- Repairs on a short chain, of which epoch 1 is a gap.
use dabeacon_indexer.Prelude.{
  ◌≤◌, ℕ, contains_key, lookup, insert, List, [], ◌∷◌, ◌&&◌, nat_key, pair_key, range, map,
  contains, length, ◌≡◌, ◌≢◌, refl,
}
use dabeacon_indexer.Error.{ok, panic, for_each}
use dabeacon_indexer.Chain.{epoch_start_slot, slot_to_epoch}
use dabeacon_indexer.Beacon.Types.{attestations}
use dabeacon_indexer.Store.Tables.{is_completed}
use dabeacon_indexer.Scanner.Bits.Examples.{hex_decode}
use dabeacon_indexer.Scanner.Bits.{
  trim_start_0x, decode_bitlist, bitlist_bits, split_last, bits_from, byte_bits, leading_zeros,
}
use dabeacon_indexer.Scanner.Rewards.{validate_epoch_response}
use dabeacon_indexer.Scanner.Scan.{for_all, ◌>>=◌}
use dabeacon_indexer.Scanner.Attestations.{inclusion_delay}
use dabeacon_indexer.Scanner.Attestations.Committees.{
  build_committee_map, resolve_pre_electra_committees,
}
use dabeacon_indexer.Scanner.Attestations.Decode.{
  extract_attestation_inclusions, process_resolved_attestation, record_committee_inclusions,
  compute_vote_correctness, process_pre_electra_attestation,
}
use dabeacon_indexer.Scanner.Attestations.Roots.{root_at_or_before, search_back}
use dabeacon_indexer.Scanner.Attestations.Dense.{rewards_map}
use dabeacon_indexer.Scanner.Attestations.Sparse.{probe, probe_slots, scan_forward_for_inclusion}
use dabeacon_indexer.Scanner.Attestations.Sparse.Epoch.{
  process_sparse_duty, process_sparse_duties, process_epoch_attestation_duties_sparse,
}
use dabeacon_indexer.Scanner.Attestations.Sparse.Examples.{short_spec, node}
use dabeacon_indexer.Scanner.Proposals.{
  tracked_proposer_slots, process_tracked_slots, process_epoch_proposals,
}
use dabeacon_indexer.Scanner.Epoch.{
  sparse, scan_attestations, scan_stages, scan_tracked, scan_epoch,
}
use dabeacon_indexer.Store.Tables.{Store}
use dabeacon_indexer.Scanner.Epoch.Completion.{AreMarked}
use dabeacon_indexer.Backfill.Repair.{
  open_gaps, insert_newest, newest_first, limit, validators_in, repair_epoch, repair_epochs,
  repair_live_gaps,
}
use dabeacon_indexer.Backfill.Repair.Marks.{is_repaired, repair_live_gaps-AreMarked}
use dabeacon_indexer.Backfill.Repair.Newest.{AreFalling, IsTaken, repair_live_gaps-newest}

abbrev with_gaps : List (ℕ × ℕ) → Store
with_gaps gaps = record {
  attestation_duties = [];
  block_proposals = [];
  sync_duties = [];
  completed_scans = [];
  live_gaps = gaps;
}

abbrev one_gap : Store
one_gap = with_gaps ((7, 1) ∷ (8, 1) ∷ [])

repairs : (repair_live_gaps short_spec hex_decode node sparse (7 ∷ []) 1 one_gap).1 ≡ ok tt
unfolding repair_live_gaps repair_epochs repair_epoch open_gaps newest_first insert_newest limit
    validators_in is_completed scan_epoch scan_tracked scan_stages scan_attestations
    process_epoch_proposals tracked_proposer_slots process_tracked_slots
    process_epoch_attestation_duties_sparse process_sparse_duties process_sparse_duty
    scan_forward_for_inclusion root_at_or_before search_back epoch_start_slot probe_slots probe
    extract_attestation_inclusions attestations for_each slot_to_epoch decode_bitlist hex_decode
    trim_start_0x bitlist_bits split_last resolve_pre_electra_committees lookup insert bits_from
    byte_bits leading_zeros process_resolved_attestation contains_key inclusion_delay
    record_committee_inclusions compute_vote_correctness process_pre_electra_attestation
    build_committee_map rewards_map validate_epoch_response for_all ◌>>=◌
repairs = refl

no_panic : (repair_live_gaps short_spec hex_decode node sparse (7 ∷ []) 1 one_gap).1 ≢ panic
no_panic h = let e = repairs in cc (e, h)

repair_live_gaps-AreMarked_example :
    let gaps = open_gaps (7 ∷ []) 1 one_gap in
    AreMarked
      (contains (limit 8 (newest_first gaps)) 1
        && is_repaired short_spec hex_decode node sparse gaps (7, 1))
      (7, 1)
      one_gap
      (repair_live_gaps short_spec hex_decode node sparse (7 ∷ []) 1 one_gap).0
repair_live_gaps-AreMarked_example =
    repair_live_gaps-AreMarked short_spec hex_decode node sparse (7 ∷ []) 1 one_gap (7, 1) no_panic

-- Nine epochs with a gap each, of which the first is left for later.
abbrev nine_gaps : Store
nine_gaps = with_gaps (map (λ epoch. (7, epoch)) (range 1 9))

repair_live_gaps-newest_example :
    let gaps = open_gaps (7 ∷ []) 9 nine_gaps in
    let chosen = limit 8 (newest_first gaps) in
    (repair_live_gaps short_spec hex_decode node sparse (7 ∷ []) 9 nine_gaps
      ≡ repair_epochs short_spec hex_decode node sparse gaps chosen nine_gaps)
    × (length chosen ≤ 8)
    × AreFalling chosen
    × IsTaken 8 gaps chosen 1
repair_live_gaps-newest_example =
    repair_live_gaps-newest short_spec hex_decode node sparse (7 ∷ []) 9 nine_gaps 1
