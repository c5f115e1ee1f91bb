-- ===== src/Store/Tables.antt =====
-- The tables that src/db/scanner writes. A `bigint` that is never negative is a natural number. The
-- references to `validators`, which make a write of an unknown validator a database error, are
-- left out.
use dabeacon_indexer.Prelude.{ℕ, Bool, List, Option, any, HashMap, nat_key, pair_key, pair_same, ℤ}

-- The columns of `attestation_duties` that `upsert_attestation_duty` writes.
pub record DutyColumns : Type 0 where
  pub assigned_slot : ℕ
  pub committee_index : ℕ
  pub committee_position : ℕ
  pub included : Bool
  pub inclusion_slot : Option ℕ
  pub inclusion_delay : Option ℤ
  pub effective_inclusion_delay : Option ℕ
  pub source_correct : Option Bool
  pub target_correct : Option Bool
  pub head_correct : Option Bool
  pub source_reward : Option ℤ
  pub target_reward : Option ℤ
  pub head_reward : Option ℤ
  pub inactivity_penalty : Option ℤ
  pub finalized : Bool

pub record AttestationDuty : Type 0 where
  pub columns : DutyColumns
  pub inclusion_known : Bool

pub record ProposalColumns : Type 0 where
  pub proposer_index : ℕ
  pub proposed : Bool
  pub reward_total : Option ℤ
  pub reward_attestations : Option ℤ
  pub reward_sync : Option ℤ
  pub reward_slashings : Option ℤ
  pub finalized : Bool

pub record SyncColumns : Type 0 where
  pub participated : Bool
  pub reward : Option ℤ
  pub missed_block : Bool
  pub finalized : Bool

-- `attestation_duties`, `completed_scans` and `live_gaps` are by validator and epoch,
-- `block_proposals` by slot, `sync_duties` by validator and slot.
pub record Store : Type 0 where
  pub attestation_duties : HashMap (ℕ × ℕ) AttestationDuty
  pub block_proposals : HashMap ℕ ProposalColumns
  pub sync_duties : HashMap (ℕ × ℕ) SyncColumns
  pub completed_scans : List (ℕ × ℕ)
  pub live_gaps : List (ℕ × ℕ)

-- EXISTS (SELECT 1 FROM completed_scans ..)
unfoldable pub is_completed : List (ℕ × ℕ) → ℕ × ℕ → Bool
is_completed scans pair = any (pair_same pair) scans

-- A reward's tuple behind the validator and the epoch.
pub record RewardColumns : Type 0 where
  pub source_reward : Option ℤ
  pub target_reward : Option ℤ
  pub head_reward : Option ℤ
  pub inactivity_penalty : Option ℤ

pub record InclusionDetails : Type 0 where
  pub slot : ℕ
  pub delay : ℕ
  pub effective_delay : ℕ
  pub source_correct : Bool
  pub target_correct : Bool
  pub head_correct : Bool

unfoldable pub set_duties : Store → HashMap (ℕ × ℕ) AttestationDuty → Store
set_duties store duties = record {
  attestation_duties = duties;
  block_proposals = store.block_proposals;
  sync_duties = store.sync_duties;
  completed_scans = store.completed_scans;
  live_gaps = store.live_gaps;
}
