-- ===== src/Scanner/SyncCommittee/Examples.antt =====
-- src/scanner/sync_committee.rs on a small committee, in which validator 7 has three positions.
use dabeacon_indexer.Prelude.{
  ℕ, Bool, true, false, List, [], ◌∷◌, some, HashMap, lookup, insert, nat_key, pos, negsuc,
  up_or_down, ◌≡◌, ◌≢◌, refl, arith,
}
use dabeacon_indexer.Error.{ok, panic}
use dabeacon_indexer.Chain.{ChainSpec}
use dabeacon_indexer.Beacon.Types.{SignedBeaconBlock, altair}
use dabeacon_indexer.Store.Tables.{Store}
use dabeacon_indexer.Scanner.Bits.Examples.{hex_decode}
use dabeacon_indexer.Scanner.SyncCommittee.Live.{upsert_live_sync_in_slot}
use dabeacon_indexer.Scanner.SyncCommittee.Live.Safety.{upsert_live_sync_in_slot-ne-panic}
use dabeacon_indexer.Scanner.SyncCommittee.{
  sync_outcomes, outcomes_from, bump, times, per_position_reward,
}
use dabeacon_indexer.Scanner.SyncCommittee.Outcomes.{lookup-sync_outcomes, tally, positions}
use dabeacon_indexer.Scanner.SyncCommittee.Reward.{per_position_reward-times}

abbrev committee : List ℕ
committee = 7 ∷ 8 ∷ 7 ∷ 7 ∷ []

abbrev bits : List Bool
bits = true ∷ true ∷ false ∷ false ∷ []

outcomes_test : sync_outcomes committee bits ≡ (7, (true, negsuc 0)) ∷ (8, (true, pos 1)) ∷ []
unfolding sync_outcomes outcomes_from bump up_or_down lookup insert
outcomes_test = refl

lookup-sync_outcomes_example :
    lookup 7 (sync_outcomes committee bits)
    ≡ tally (positions true 7 committee bits) (positions false 7 committee bits)
lookup-sync_outcomes_example = lookup-sync_outcomes 7 committee bits

per_position_reward-times_example :
    per_position_reward (times (pos 30) (negsuc 1)) (negsuc 1) ≡ ok (some (pos 30))
per_position_reward-times_example =
    per_position_reward-times 30 (negsuc 1) (omega arith) (omega arith)

abbrev empty_store : Store
empty_store = record {
  attestation_duties = [];
  block_proposals = [];
  sync_duties = [];
  completed_scans = [];
  live_gaps = [];
}

-- The second position of validator 7 lies outside of the eight bits.
abbrev tracked : HashMap ℕ (List ℕ)
tracked = (7, 1 ∷ 9 ∷ []) ∷ []

abbrev eight : ChainSpec
eight = record {
  slots_per_epoch = 32;
  seconds_per_slot = 12;
  sync_committee_size = 8;
  max_committees_per_slot = 64;
  altair_fork_epoch = 0;
  genesis_time = 0;
}

abbrev altair_block : SignedBeaconBlock
altair_block = altair (record {
  slot = 35;
  proposer_index = 1;
  parent_root = "b";
  state_root = "s";
  body = record { attestations = []; sync_aggregate = record { sync_committee_bits = "0x05" } };
})

upsert_live_sync_in_slot-ne-panic_example :
    (upsert_live_sync_in_slot eight 35 hex_decode empty_store (some altair_block) tracked).1 ≢ panic
upsert_live_sync_in_slot-ne-panic_example =
    upsert_live_sync_in_slot-ne-panic eight 35 hex_decode empty_store (some altair_block) tracked
