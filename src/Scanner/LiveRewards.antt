-- ===== src/Scanner/LiveRewards.antt =====
-- The rewards of the live worker (src/scanner/mod.rs, src/scanner/proposals.rs and
-- src/scanner/sync_committee.rs): requests by a block's root or for an epoch, whose responses are
-- checked before they are staged, and the storing of sync rewards. What the node answers is a
-- parameter, without the dependent root that comes with it.
pub mod Joined
use dabeacon_indexer.Prelude.{
  ℕ, ◌==◌, ◌&&◌, not, if◌then◌else◌, Bool, true, false, List, [], ◌∷◌, map, Option, none, some,
  HashMap, lookup, nat_key, pair_key, ℤ,
}
use dabeacon_indexer.Error.{Result, ok, err, ◌>>=◌, ◌>>◌, ensure, inconsistent_beacon_data}
use dabeacon_indexer.Beacon.Types.{
  BlockRoot, BlockRewards, SyncCommitteeReward, ValidatorAttestationReward, SignedBeaconBlock,
  proposer_index,
}
use dabeacon_indexer.Scanner.Rewards.{validate_reward_indices}
use dabeacon_indexer.Store.Table.{update}
use dabeacon_indexer.Store.Tables.{SyncColumns, Store}

unfoldable pub fetch_live_attestation_rewards :
    (ℕ → List ℕ → Result (List ValidatorAttestationReward))
    → ℕ
    → List ℕ
    → Result (List ValidatorAttestationReward)
fetch_live_attestation_rewards get_rewards epoch [] = err inconsistent_beacon_data
fetch_live_attestation_rewards get_rewards epoch (v ∷ validators) = do
  response ← get_rewards epoch (v ∷ validators)
  validate_reward_indices (v ∷ validators)
      (map (λ (r : ValidatorAttestationReward). r.validator_index) response)
  ok response

unfoldable pub fetch_live_proposal_rewards :
    (BlockRoot → Result BlockRewards) → BlockRoot → SignedBeaconBlock → Result BlockRewards
fetch_live_proposal_rewards get_rewards root block = do
  response ← get_rewards root
  ensure (response.proposer_index == proposer_index block) inconsistent_beacon_data
  ok response

unfoldable pub fetch_live_sync_rewards :
    (BlockRoot → List ℕ → Result (List SyncCommitteeReward))
    → BlockRoot
    → List ℕ
    → Result (List SyncCommitteeReward)
fetch_live_sync_rewards get_rewards root [] = err inconsistent_beacon_data
fetch_live_sync_rewards get_rewards root (m ∷ members) = do
  response ← get_rewards root (m ∷ members)
  validate_reward_indices (m ∷ members)
      (map (λ (r : SyncCommitteeReward). r.validator_index) response)
  ok response

-- The reward of a validator; of several the first.
unfoldable pub reward_of : List SyncCommitteeReward → ℕ → Option ℤ
reward_of [] validator = none
reward_of (r ∷ rewards) validator =
    if r.validator_index == validator then some r.reward else reward_of rewards validator

abbrev pub with_reward : Option ℤ → SyncColumns → SyncColumns
with_reward none row = row
with_reward (some reward) row = record row { reward = some reward }

unfoldable pub joined_row : ℕ → List SyncCommitteeReward → ℕ × ℕ → SyncColumns → SyncColumns
joined_row slot rewards (validator, s) row =
    if s == slot && not row.finalized then with_reward (reward_of rewards validator) row else row

unfoldable pub persist_live_sync_rewards : Store → ℕ → List SyncCommitteeReward → Store
persist_live_sync_rewards store slot rewards = record {
  attestation_duties = store.attestation_duties;
  block_proposals = store.block_proposals;
  sync_duties = update (joined_row slot rewards) store.sync_duties;
  completed_scans = store.completed_scans;
  live_gaps = store.live_gaps;
}
