-- ===== src/Chain.antt =====
-- src/chain.rs: the chain constants and the arithmetic of slots and epochs.
-- A `u64` product wraps at 2 ^ 64, as in a release build.
use dabeacon_indexer.Prelude.{ℕ, ◌-◌, ◌*◌, ◌/◌, ◌%◌, ◌^◌, ltb, if◌then◌else◌, Option, none, some}

pub record ChainSpec : Type 0 where
  pub slots_per_epoch : ℕ
  pub seconds_per_slot : ℕ
  pub sync_committee_size : ℕ
  pub max_committees_per_slot : ℕ
  pub altair_fork_epoch : ℕ
  pub genesis_time : ℕ

abbrev pub mainnet : ChainSpec
mainnet = record {
  slots_per_epoch = 32;
  seconds_per_slot = 12;
  sync_committee_size = 512;
  max_committees_per_slot = 64;
  altair_fork_epoch = 74_240;
  genesis_time = 1_606_824_023;
}

-- Unsigned 64-bit values.
abbrev pub u64_modulus : ℕ
u64_modulus = 2 ^ 64

abbrev pub wrap64 : ℕ → ℕ
wrap64 n = n % u64_modulus

-- `checked_sub`.
abbrev pub checked_sub : ℕ → ℕ → Option ℕ
checked_sub a b = if ltb a b then none else some (a - b)

unfoldable pub epochs_per_day : ChainSpec → ℕ
epochs_per_day spec = 86_400 / wrap64 (spec.seconds_per_slot * spec.slots_per_epoch)

unfoldable pub epoch_start_slot : ChainSpec → ℕ → ℕ
epoch_start_slot spec epoch = wrap64 (epoch * spec.slots_per_epoch)

unfoldable pub slot_to_epoch : ChainSpec → ℕ → ℕ
slot_to_epoch spec slot = slot / spec.slots_per_epoch

-- Epoch E may include attestations through the end of E+1, so checkpoint E+2 anchors them.
unfoldable pub finalized_scan_target : ℕ → Option ℕ
finalized_scan_target checkpoint_epoch = checked_sub checkpoint_epoch 2
