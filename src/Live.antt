-- ===== src/Live.antt =====
-- src/live: the worker that follows the chain's head. The slot arithmetic of src/live/mod.rs and
-- src/live/reorg.rs.
pub mod Window
mod Examples
pub mod Finalization
use dabeacon_indexer.Prelude.{ℕ, ◌+◌, ◌-◌, ◌^◌, min, max, Option, none, some}
use dabeacon_indexer.Chain.{ChainSpec, epoch_start_slot, slot_to_epoch, checked_sub, u64_modulus}

-- `saturating_add` of `u64`; `saturating_sub` is `-` on ℕ.
abbrev pub saturating_add : ℕ → ℕ → ℕ
saturating_add a b = min (a + b) (u64_modulus - 1)

module _ (spec : ChainSpec) where
  window_floor : ℕ → ℕ → ℕ
  window_floor head_slot window_epochs =
      epoch_start_slot spec (slot_to_epoch spec head_slot - window_epochs)

  unfoldable pub collection_start : ℕ → Option ℕ → ℕ → ℕ
  unfolding window_floor
  collection_start head_slot none window_epochs =
      epoch_start_slot spec (slot_to_epoch spec head_slot)
  collection_start head_slot (some slot) window_epochs =
      max (saturating_add slot 1) (window_floor head_slot window_epochs)

  epoch_before_last : Option ℕ → Option ℕ
  epoch_before_last none = none
  epoch_before_last (some slot) = checked_sub (slot_to_epoch spec slot) 2

  unfoldable pub latest_reward_epoch : ℕ → ℕ → Option ℕ
  unfolding epoch_before_last
  latest_reward_epoch head_slot settling_slots =
      epoch_before_last (checked_sub head_slot settling_slots)

  unfoldable pub reorg_replay_start : ℕ → ℕ
  reorg_replay_start revert_from = epoch_start_slot spec (slot_to_epoch spec revert_from - 1)
