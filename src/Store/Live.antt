-- ===== src/Store/Live.antt =====
-- src/db/scanner/live.rs: the tables of the live worker beside those of the scans, and what the worker
-- does to them. Times are seconds; a payload is the text of its JSON; of a job's error only that there
-- was one would be kept, and it is left out.
pub mod Jobs
pub mod Expiry
pub mod Anchor
pub mod Reorg
pub mod Steps
mod Examples
use dabeacon_indexer.Prelude.{
  ℕ, ◌+◌, ◌*◌, ◌/◌, ◌^◌, ◌==◌, ltb, leb, min, if◌then◌else◌, Bool, true, false, ◌&&◌, ◌||◌, not,
  String, List, [], ◌∷◌, contains, any, filter_by, Option, none, some, HashMap, lookup, insert,
  nat_key, pair_key, pair_same,
}
use dabeacon_indexer.Chain.{ChainSpec, slot_to_epoch, epoch_start_slot}
use dabeacon_indexer.Beacon.Types.{BlockRoot}
use dabeacon_indexer.Store.Table.{upsert, retain}
use dabeacon_indexer.Store.Tables.{
  AttestationDuty, ProposalColumns, SyncColumns, Store, is_completed,
}

pub data Component : Type 0 where
  attestation_rewards proposal_rewards sync_rewards : Component

abbrev pub same_component : Component → Component → Bool
same_component attestation_rewards attestation_rewards = true
same_component proposal_rewards proposal_rewards = true
same_component sync_rewards sync_rewards = true
same_component _ _ = false

pub data Status : Type 0 where
  pending complete needs_backfill : Status

abbrev pub is_pending : Status → Bool
is_pending pending = true
is_pending _ = false

-- A row of `live_jobs`; an epoch job, stored with the slot -1, has no slot.
pub record JobRow : Type 0 where
  pub validator : ℕ
  pub epoch : ℕ
  pub slot : Option ℕ
  pub component : Component
  pub root : Option BlockRoot
  pub dependency : Option BlockRoot
  pub status : Status
  pub attempts : ℕ
  pub next_attempt : ℕ
  pub payload : Option String

-- `live_blocks` by slot, with a block's root and its parent's; `live_coverage` by validator and slot;
-- `live_tracking_start` by validator.
pub record LiveStore : Type 0 where
  pub tables : Store
  pub blocks : HashMap ℕ (BlockRoot × BlockRoot)
  pub coverage : List (ℕ × ℕ)
  pub tracking_start : HashMap ℕ ℕ
  pub jobs : List JobRow

-- LEAST(stored, new)
unfoldable pub register_starts : List ℕ → ℕ → HashMap ℕ ℕ → HashMap ℕ ℕ
register_starts [] epoch starts = starts
register_starts (validator ∷ validators) epoch starts =
    register_starts validators epoch
      (upsert (λ old new. true) (λ old new. min old new) (λ new. new) validator epoch starts)

-- `epoch < started_epoch`, where the validator has a start.
unfoldable pub is_before_start : HashMap ℕ ℕ → ℕ → ℕ → Bool
is_before_start starts validator epoch = elim (lookup validator starts) [
  | none ↦ false
  | some started ↦ ltb epoch started
]

unfoldable pub register_tracking_start : LiveStore → List ℕ → ℕ → LiveStore
register_tracking_start s validators epoch =
    let starts = register_starts validators epoch s.tracking_start in
    record {
      tables = record {
        attestation_duties = s.tables.attestation_duties;
        block_proposals = s.tables.block_proposals;
        sync_duties = s.tables.sync_duties;
        completed_scans = s.tables.completed_scans;
        live_gaps =
            filter_by (λ (gap : ℕ × ℕ). not (is_before_start starts gap.0 gap.1))
              s.tables.live_gaps;
      };
      blocks = s.blocks;
      coverage = s.coverage;
      tracking_start = starts;
      jobs =
          filter_by
            (λ (job : JobRow). not (
              is_before_start starts job.validator job.epoch
              && not (is_completed s.tables.completed_scans (job.validator, job.epoch))))
            s.jobs;
    }

unfoldable pub record_block : LiveStore → ℕ → BlockRoot → BlockRoot → LiveStore
record_block s slot root parent = record {
  tables = s.tables;
  blocks = insert slot (root, parent) s.blocks;
  coverage = s.coverage;
  tracking_start = s.tracking_start;
  jobs = s.jobs;
}

unfoldable pub insert_coverage : List ℕ → ℕ → List (ℕ × ℕ) → List (ℕ × ℕ)
insert_coverage [] slot coverage = coverage
insert_coverage (validator ∷ validators) slot coverage =
    insert_coverage validators slot (
      if any (pair_same (validator, slot)) coverage then coverage else (validator, slot) ∷ coverage)

unfoldable pub record_coverage : LiveStore → List ℕ → ℕ → LiveStore
record_coverage s validators slot = record {
  tables = s.tables;
  blocks = s.blocks;
  coverage = insert_coverage validators slot s.coverage;
  tracking_start = s.tracking_start;
  jobs = s.jobs;
}

-- NOT (slot >= from AND NOT finalized)
abbrev pub is_kept : ℕ → ℕ → Bool → Bool
is_kept from at finalized = not (leb from at && not finalized)

unfoldable pub invalidate_from : ChainSpec → LiveStore → ℕ → LiveStore
invalidate_from spec s replay_from =
    let epoch = slot_to_epoch spec replay_from in
    record {
      tables = record {
        attestation_duties =
            retain
              (λ (key : ℕ × ℕ) (row : AttestationDuty). is_kept epoch key.1 row.columns.finalized)
              s.tables.attestation_duties;
        block_proposals =
            retain (λ slot (row : ProposalColumns). is_kept replay_from slot row.finalized)
              s.tables.block_proposals;
        sync_duties =
            retain (λ (key : ℕ × ℕ) (row : SyncColumns). is_kept replay_from key.1 row.finalized)
              s.tables.sync_duties;
        completed_scans = s.tables.completed_scans;
        live_gaps = s.tables.live_gaps;
      };
      blocks = retain (λ slot block. not (leb replay_from slot)) s.blocks;
      coverage = filter_by (λ (entry : ℕ × ℕ). not (leb replay_from entry.1)) s.coverage;
      tracking_start = s.tracking_start;
      jobs =
          filter_by
            (λ (job : JobRow).
              is_kept epoch job.epoch
                (is_completed s.tables.completed_scans (job.validator, job.epoch)))
            s.jobs;
    }
