-- ===== src/Scanner/SyncCommittee/Epoch.antt =====
-- `process_epoch_sync` of src/scanner/sync_committee.rs. The blocks that are fetched side by side
-- stand in the order of their slots.
use dabeacon_indexer.Prelude.{
  ℕ, ◌==◌, if◌then◌else◌, Bool, true, false, ◌&&◌, not, String, List, [], ◌∷◌, length, contains,
  range, filter_by, any, Option, none, some, nat_key, pair_key, ℤ, pos,
}
use dabeacon_indexer.Error.{Result, ok, err, ensure, beacon_api, inconsistent_beacon_data}
use dabeacon_indexer.Chain.{ChainSpec, epoch_start_slot}
use dabeacon_indexer.Beacon.Types.{SyncAggregate, SignedBeaconBlock}
use dabeacon_indexer.Beacon.Node.{BeaconNode}
use dabeacon_indexer.Store.Writes.{sync}
use dabeacon_indexer.Scanner.Scan.{Scan, done, lift, write, for_all, ◌>>=◌, ◌>>◌}
use dabeacon_indexer.Scanner.Attestations.RootMap.{Blocks, fetch_blocks_for_slots}
use dabeacon_indexer.Scanner.Attestations.Sparse.{is_some, map_option}
use dabeacon_indexer.Scanner.SyncCommittee.{
  Outcome, sync_outcomes, times, decode_sync_committee_bits,
}
use dabeacon_indexer.Scanner.SyncCommittee.Probe.{aggregate_of, probe_sync_participant_reward}

-- `HashSet`: each element once.
unfoldable pub distinct : List ℕ → List ℕ
distinct [] = []
distinct (x ∷ xs) = let rest = distinct xs in if contains rest x then rest else x ∷ rest

-- The duties name members of the sync committee, of whom the tracked ones are of interest.
unfoldable pub relevant_of : List ℕ → List ℕ → List ℕ
unfolding distinct
relevant_of tracked duties = filter_by (contains tracked) (distinct duties)

module _ (relevant committee : List ℕ) (magnitude : Option ℤ) (finalized : Bool) (slot : ℕ) where
  -- The body of the loop over the outcomes.
  unfoldable pub write_outcome : ℕ × Outcome → Scan (Unit {0})
  write_outcome (validator, (participated, net_positions)) =
      if contains relevant validator
      then write (
          sync (validator, slot)
            (record {
              participated = participated;
              reward = map_option (λ m. times m net_positions) magnitude;
              missed_block = false;
              finalized = finalized;
            }))
      else done

  unfoldable pub write_missed_member : ℕ → Scan (Unit {0})
  write_missed_member validator = write (
      sync (validator, slot)
        (record {
          participated = false;
          reward = some (pos 0);
          missed_block = true;
          finalized = finalized;
        }))

  unfoldable pub write_aggregate_outcomes :
      ChainSpec → (String → Option (List ℕ)) → Option SyncAggregate → Scan (Unit {0})
  write_aggregate_outcomes spec hex_decode none = done
  write_aggregate_outcomes spec hex_decode (some aggregate) = do
    bits ← lift (decode_sync_committee_bits spec hex_decode aggregate.sync_committee_bits)
    for_all write_outcome (sync_outcomes committee bits)

  -- A slot of the epoch, with its block if there is one.
  unfoldable pub process_sync_slot :
      ChainSpec → (String → Option (List ℕ)) → Option SignedBeaconBlock → Scan (Unit {0})
  process_sync_slot spec hex_decode none = for_all write_missed_member relevant
  process_sync_slot spec hex_decode (some block) =
      write_aggregate_outcomes spec hex_decode (aggregate_of (some block))

-- Where no reward was found, but there are blocks, the scan is not complete.
abbrev pub check_magnitude : Option ℤ → Blocks → Result (Unit {0})
check_magnitude magnitude slot_blocks =
    if not (is_some magnitude)
      && any (λ (entry : ℕ × Option SignedBeaconBlock). is_some entry.1) slot_blocks
    then err (beacon_api 404)
    else ok tt

module _ (spec : ChainSpec) (hex_decode : String → Option (List ℕ)) (node : BeaconNode) (epoch : ℕ)
    (finalized : Bool) where
  unfoldable pub process_relevant : List ℕ → List ℕ → Scan (Unit {0})
  process_relevant committee [] = done
  process_relevant committee (v ∷ vs) = do
    slot_blocks ← lift (
        fetch_blocks_for_slots node.get_block
          (range (epoch_start_slot spec epoch) spec.slots_per_epoch))
    magnitude ← lift (
        probe_sync_participant_reward spec hex_decode node.get_sync_committee_rewards (v ∷ vs)
          committee slot_blocks)
    for_all
        (λ (entry : ℕ × Option SignedBeaconBlock).
          process_sync_slot (v ∷ vs) committee magnitude finalized entry.0 spec hex_decode entry.1)
        slot_blocks
    lift (check_magnitude magnitude slot_blocks)

  unfoldable pub process_members : List ℕ → List ℕ → Scan (Unit {0})
  process_members tracked_validators [] = done
  process_members tracked_validators (d ∷ duties) = do
    committee ← lift (node.get_sync_committee epoch)
    lift (ensure (length committee == spec.sync_committee_size) inconsistent_beacon_data)
    process_relevant committee (relevant_of tracked_validators (d ∷ duties))

  unfoldable pub process_epoch_sync : List ℕ → Scan (Unit {0})
  process_epoch_sync tracked_validators = do
    duties ← lift (node.get_sync_duties epoch tracked_validators)
    process_members tracked_validators duties
