-- ===== src/Scanner/Proposals.antt =====
-- src/scanner/proposals.rs: the proposals of an epoch, and those of the live worker. A cast to `i64`
-- wraps.
pub mod Range
use dabeacon_indexer.Prelude.{
  ℕ, ◌+◌, ◌-◌, ◌^◌, ltb, if◌then◌else◌, Bool, true, false, List, [], ◌∷◌, contains, range, Option,
  none, some, HashMap, lookup, insert, nat_key, ℤ, pos, i64_bound, as_i64,
}
use dabeacon_indexer.Error.{Result, ok, err, ok_or, inconsistent_beacon_data}
use dabeacon_indexer.Chain.{ChainSpec, epoch_start_slot, u64_modulus, wrap64}
use dabeacon_indexer.Beacon.Types.{ProposerDuty, BlockRewards, SignedBeaconBlock, proposer_index}
use dabeacon_indexer.Beacon.Node.{BeaconNode}
use dabeacon_indexer.Store.Tables.{ProposalColumns}
use dabeacon_indexer.Store.Writes.{proposal}
use dabeacon_indexer.Scanner.Scan.{Scan, done, lift, write, for_all, ◌>>=◌, ◌>>◌}
use dabeacon_indexer.Scanner.Attestations.Sparse.{is_some}

-- The slots at which a tracked validator proposes; of two duties for one slot the later is kept.
unfoldable pub tracked_proposer_slots : List ℕ → HashMap ℕ ℕ → List ProposerDuty → HashMap ℕ ℕ
tracked_proposer_slots tracked slots [] = slots
tracked_proposer_slots tracked slots (d ∷ duties) =
    tracked_proposer_slots tracked
      (if contains tracked d.validator_index then insert d.slot d.validator_index slots else slots)
      duties

abbrev pub missed_proposal : ℕ → Bool → ProposalColumns
missed_proposal proposer finalized = record {
  proposer_index = proposer;
  proposed = false;
  reward_total = none;
  reward_attestations = none;
  reward_sync = none;
  reward_slashings = none;
  finalized = finalized;
}

abbrev pub rewarded_proposal : ℕ → BlockRewards → Bool → ProposalColumns
rewarded_proposal proposer rewards finalized = record {
  proposer_index = proposer;
  proposed = true;
  reward_total = some (as_i64 rewards.total);
  reward_attestations = some (as_i64 rewards.attestations);
  reward_sync = some (as_i64 rewards.sync_aggregate);
  reward_slashings =
      some (as_i64 (wrap64 (rewards.proposer_slashings + rewards.attester_slashings)));
  finalized = finalized;
}

module _ (node : BeaconNode) (finalized : Bool) where
  unfoldable pub process_proposal : ℕ → ℕ → Option SignedBeaconBlock → Scan (Unit {0})
  process_proposal slot proposer none = write (proposal slot (missed_proposal proposer finalized))
  process_proposal slot proposer (some block) = do
    rewards ← lift (node.get_block_rewards slot)
    write (proposal slot (rewarded_proposal proposer rewards finalized))

  -- The body of the loop over the slots.
  unfoldable pub process_slot_proposal : HashMap ℕ ℕ → ℕ → Scan (Unit {0})
  process_slot_proposal slots slot = elim (lookup slot slots) [
    | none ↦ done
    | some proposer ↦ lift (node.get_block slot) >>= process_proposal slot proposer
  ]

  unfoldable pub process_tracked_slots : ChainSpec → ℕ → HashMap ℕ ℕ → Scan (Unit {0})
  process_tracked_slots spec epoch [] = done
  process_tracked_slots spec epoch (entry ∷ slots) =
      for_all (process_slot_proposal (entry ∷ slots))
        (range (epoch_start_slot spec epoch) spec.slots_per_epoch)

  unfoldable pub process_epoch_proposals : ChainSpec → ℕ → List ℕ → Scan (Unit {0})
  process_epoch_proposals spec epoch tracked_validators =
      lift (node.get_proposer_duties epoch) >>= λ duties.
      process_tracked_slots spec epoch (tracked_proposer_slots tracked_validators [] duties)

-- The live worker's row of a tracked proposer's slot, whose rewards come later.
unfoldable pub upsert_live_proposal_in_slot : ℕ → ℕ → Option SignedBeaconBlock → Scan (Unit {0})
upsert_live_proposal_in_slot slot proposer block = write (
    proposal slot (record {
      proposer_index = proposer;
      proposed = is_some block;
      reward_total = none;
      reward_attestations = none;
      reward_sync = none;
      reward_slashings = none;
      finalized = false;
    }))

-- `i64::try_from`.
unfoldable pub signed_reward : ℕ → Result ℤ
signed_reward value = if ltb value i64_bound then ok (pos value) else err inconsistent_beacon_data

-- `checked_add`.
unfoldable pub checked_add : ℕ → ℕ → Option ℕ
checked_add a b = if ltb (a + b) u64_modulus then some (a + b) else none

unfoldable pub persist_live_proposal_rewards : ℕ → BlockRewards → Scan (Unit {0})
persist_live_proposal_rewards slot rewards = do
  slashings ← lift (
      ok_or inconsistent_beacon_data
        (checked_add rewards.proposer_slashings rewards.attester_slashings))
  total ← lift (signed_reward rewards.total)
  attestations ← lift (signed_reward rewards.attestations)
  sync_aggregate ← lift (signed_reward rewards.sync_aggregate)
  slashed ← lift (signed_reward slashings)
  write (
      proposal slot (record {
        proposer_index = rewards.proposer_index;
        proposed = true;
        reward_total = some total;
        reward_attestations = some attestations;
        reward_sync = some sync_aggregate;
        reward_slashings = some slashed;
        finalized = false;
      }))
