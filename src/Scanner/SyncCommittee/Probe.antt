-- ===== src/Scanner/SyncCommittee/Probe.antt =====
-- `probe_sync_participant_reward` of src/scanner/sync_committee.rs.
use dabeacon_indexer.Prelude.{
  ℕ, ◌==◌, if◌then◌else◌, String, List, [], ◌∷◌, Option, none, some, HashMap, lookup, nat_key, ℤ,
}
use dabeacon_indexer.Error.{Result, ok, err, panic, beacon_api, ◌>>=◌}
use dabeacon_indexer.Chain.{ChainSpec}
use dabeacon_indexer.Beacon.Types.{
  SyncAggregate, SyncCommitteeReward, SignedBeaconBlock, sync_aggregate,
}
use dabeacon_indexer.Scanner.Attestations.RootMap.{Blocks}
use dabeacon_indexer.Scanner.SyncCommittee.{
  Outcome, sync_outcomes, per_position_reward, decode_sync_committee_bits,
}

-- `block.as_ref().and_then(|b| b.sync_aggregate())`.
unfoldable pub aggregate_of : Option SignedBeaconBlock → Option SyncAggregate
aggregate_of none = none
aggregate_of (some block) = sync_aggregate block

-- The reward of a position by one validator's total, if it has an outcome.
unfoldable pub magnitude_of : Option Outcome → ℤ → Result (Option ℤ)
magnitude_of none total = ok none
magnitude_of (some (participated, net_positions)) total = per_position_reward total net_positions

abbrev pub first_magnitude : Result (Option ℤ) → Option ℤ → Result (Option ℤ)
first_magnitude later none = later
first_magnitude later (some magnitude) = ok (some magnitude)

-- The loop over the rewards of one slot.
unfoldable pub magnitude_in : HashMap ℕ Outcome → List SyncCommitteeReward → Result (Option ℤ)
magnitude_in outcomes [] = ok none
magnitude_in outcomes (r ∷ rewards) =
    magnitude_of (lookup r.validator_index outcomes) r.reward
    >>= first_magnitude (magnitude_in outcomes rewards)

-- A slot whose parent state the node no longer has is passed over.
unfoldable pub probed_slot :
    HashMap ℕ Outcome → Result (List SyncCommitteeReward) → Result (Option ℤ)
probed_slot outcomes (ok rewards) = magnitude_in outcomes rewards
probed_slot outcomes (err (beacon_api status)) =
    if status == 404 then ok none else err (beacon_api status)
probed_slot outcomes (err e) = err e
probed_slot outcomes panic = panic

module _ (spec : ChainSpec) (hex_decode : String → Option (List ℕ))
    (get_sync_committee_rewards : ℕ → List ℕ → Result (List SyncCommitteeReward))
    (relevant committee : List ℕ) where
  unfoldable pub probe_aggregate : ℕ → Option SyncAggregate → Result (Option ℤ)
  probe_aggregate slot none = ok none
  probe_aggregate slot (some aggregate) =
      decode_sync_committee_bits spec hex_decode aggregate.sync_committee_bits >>= λ bits.
      probed_slot (sync_outcomes committee bits) (get_sync_committee_rewards slot relevant)

  unfoldable pub probe_sync_participant_reward : Blocks → Result (Option ℤ)
  probe_sync_participant_reward [] = ok none
  probe_sync_participant_reward ((slot, block) ∷ slot_blocks) =
      probe_aggregate slot (aggregate_of block)
      >>= first_magnitude (probe_sync_participant_reward slot_blocks)
