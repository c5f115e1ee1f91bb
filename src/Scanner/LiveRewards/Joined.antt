-- ===== src/Scanner/LiveRewards/Joined.antt =====
-- What `persist_live_sync_rewards` of src/scanner/sync_committee.rs leaves of a row.
use dabeacon_indexer.Prelude.{ℕ, ◌==◌, ◌&&◌, not, if◌then◌else◌, List, some, lookup, pair_key, ◌≡◌}
use dabeacon_indexer.Beacon.Types.{SyncCommitteeReward}
use dabeacon_indexer.Store.Table.{lookup-update}
use dabeacon_indexer.Store.Tables.{SyncColumns, Store}
use dabeacon_indexer.Scanner.LiveRewards.{
  reward_of, with_reward, joined_row, persist_live_sync_rewards,
}

-- A row of the slot that is not final takes the reward of its validator, if there is one; every other
-- row stays as it is.
pub lookup-persist_live_sync_rewards :
    (store : Store) (slot validator s : ℕ) (rewards : List SyncCommitteeReward) (row : SyncColumns)
    → lookup (validator, s) store.sync_duties ≡ some row
    → lookup (validator, s) (persist_live_sync_rewards store slot rewards).sync_duties
      ≡ some (
          if s == slot && not row.finalized
          then with_reward (reward_of rewards validator) row
          else row)
unfolding persist_live_sync_rewards joined_row
lookup-persist_live_sync_rewards store slot validator s rewards row there =
    lookup-update (joined_row slot rewards) (validator, s) row store.sync_duties there
