-- ===== src/Scanner/Attestations.antt =====
-- src/scanner/attestations/mod.rs: the types that the dense, the sparse and the live path share,
-- and the inclusion delays.
pub mod Committees
pub mod Decode
pub mod Delay
pub mod Ancestry
pub mod LiveSlot
pub mod Roots
pub mod RootMap
pub mod Sparse
pub mod Dense
mod Examples
use dabeacon_indexer.Prelude.{ℕ, suc, ◌+◌, ◌-◌, Bool, List, Option, contains, count_by, range}
use dabeacon_indexer.Error.{Result, ok_or, inconsistent_beacon_data}
use dabeacon_indexer.Chain.{checked_sub}
use dabeacon_indexer.Beacon.Types.{BlockRoot, Checkpoint}
use dabeacon_indexer.Prelude.{HashMap}

pub record VoteContext : Type 0 where
  pub block_roots : HashMap ℕ BlockRoot
  pub target_root : BlockRoot
  pub target_epoch : ℕ
  pub source : Option Checkpoint

pub record AttestationInclusion : Type 0 where
  pub inclusion_slot : ℕ
  pub inclusion_delay : ℕ
  pub source_correct : Bool
  pub target_correct : Bool
  pub head_correct : Bool

pub record VoteMarks : Type 0 where
  pub head_correct : Bool
  pub target_correct : Bool
  pub source_correct : Bool

-- The validators' bits stand at `bit_offset`, `bit_offset + 1`, ..
pub record AssignedCommittee : Type 0 where
  pub index : ℕ
  pub validators : List ℕ
  pub bit_offset : ℕ

unfoldable pub inclusion_delay : ℕ → ℕ → Result ℕ
inclusion_delay inclusion_slot att_slot =
    ok_or inconsistent_beacon_data (checked_sub inclusion_slot att_slot)

-- `saturating_sub` is `-` on ℕ.
unfoldable pub effective_inclusion_delay : ℕ → ℕ → ℕ → List ℕ → ℕ
effective_inclusion_delay att_slot inclusion_slot raw_delay missed_slots =
    let missed =
      count_by (contains missed_slots) (range (att_slot + 1) (inclusion_slot - (att_slot + 1))) in
    raw_delay - missed
