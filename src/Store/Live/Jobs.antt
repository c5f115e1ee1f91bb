-- ===== src/Store/Live/Jobs.antt =====
-- The reward jobs of src/db/scanner/live.rs, and the pruning of what is no longer needed.
use dabeacon_indexer.Prelude.{
  ℕ, ◌+◌, ◌*◌, ◌^◌, ◌==◌, ltb, max, min, if◌then◌else◌, Bool, true, false, ◌&&◌, not, String, List,
  [], ◌∷◌, map, contains, any, filter_by, Option, none, some, HashMap, nat_key, pair_key, pair_same,
}
use dabeacon_indexer.Chain.{ChainSpec, epoch_start_slot}
use dabeacon_indexer.Beacon.Types.{BlockRoot}
use dabeacon_indexer.Store.Table.{retain}
use dabeacon_indexer.Store.Tables.{is_completed}
use dabeacon_indexer.Store.Live.{
  Component, same_component, pending, complete, needs_backfill, is_pending, JobRow, LiveStore,
}

-- A group of job rows, those of the validators.
pub record LiveJob : Type 0 where
  pub epoch : ℕ
  pub slot : Option ℕ
  pub component : Component
  pub validators : List ℕ
  pub root : Option BlockRoot

abbrev pub same_slot : Option ℕ → Option ℕ → Bool
same_slot none none = true
same_slot (some a) (some b) = a == b
same_slot _ _ = false

-- Epoch, slot and component of the primary key.
unfoldable pub is_of_group : ℕ → Option ℕ → Component → JobRow → Bool
is_of_group epoch slot component row =
    row.epoch == epoch && same_slot row.slot slot && same_component row.component component

-- WHERE epoch=.. AND slot=.. AND component=.. AND validator_index=ANY(..)
unfoldable pub is_of_job : LiveJob → JobRow → Bool
is_of_job job row =
    is_of_group job.epoch job.slot job.component row && contains job.validators row.validator

unfoldable pub new_job : ℕ → ℕ → Option ℕ → Component → Option BlockRoot → ℕ → JobRow
new_job now epoch slot component root validator = record {
  validator = validator;
  epoch = epoch;
  slot = slot;
  component = component;
  root = root;
  dependency = none;
  status = pending;
  attempts = 0;
  next_attempt = now;
  payload = none;
}

-- INSERT .. ON CONFLICT DO NOTHING
unfoldable pub enqueue :
    ℕ → ℕ → Option ℕ → Component → Option BlockRoot → List ℕ → List JobRow → List JobRow
enqueue now epoch slot component root [] jobs = jobs
enqueue now epoch slot component root (validator ∷ validators) jobs =
    enqueue now epoch slot component root validators (
      if any (λ (row : JobRow). is_of_group epoch slot component row && row.validator == validator)
        jobs
      then jobs
      else new_job now epoch slot component root validator ∷ jobs)

-- The store with other jobs.
unfoldable pub set_jobs : LiveStore → List JobRow → LiveStore
set_jobs s jobs = record {
  tables = s.tables;
  blocks = s.blocks;
  coverage = s.coverage;
  tracking_start = s.tracking_start;
  jobs = jobs;
}

unfoldable pub enqueue_jobs :
    LiveStore → ℕ → ℕ → Option ℕ → Component → List ℕ → Option BlockRoot → LiveStore
unfolding set_jobs
enqueue_jobs s now epoch slot component validators root =
    set_jobs s (enqueue now epoch slot component root validators s.jobs)

-- The payload and the success are stored together.
unfoldable pub completed_row : LiveJob → String → BlockRoot → JobRow → JobRow
completed_row job payload dependency row =
    if is_of_job job row
    then record row { status = complete; payload = some payload; dependency = some dependency }
    else row

unfoldable pub complete_job : LiveStore → LiveJob → String → BlockRoot → LiveStore
unfolding set_jobs
complete_job s job payload dependency =
    set_jobs s (map (completed_row job payload dependency) s.jobs)

-- The wait doubles with each attempt, up to the fifth.
unfoldable pub retry_wait : ℕ → ℕ
retry_wait attempts = 12 * 2 ^ min attempts 4

unfoldable pub failed_row : ℕ → LiveJob → JobRow → JobRow
failed_row now job row =
    if is_of_job job row && is_pending row.status
    then record row { attempts = row.attempts + 1; next_attempt = now + retry_wait row.attempts }
    else row

unfoldable pub fail_job : LiveStore → ℕ → LiveJob → LiveStore
unfolding set_jobs
fail_job s now job = set_jobs s (map (failed_row now job) s.jobs)

unfoldable pub is_expired : ℕ → JobRow → Bool
is_expired min_epoch row = ltb row.epoch min_epoch && is_pending row.status

-- A gap for each validator and epoch of an expired job, stored once.
unfoldable pub insert_gaps : ℕ → List JobRow → List (ℕ × ℕ) → List (ℕ × ℕ)
insert_gaps min_epoch [] gaps = gaps
insert_gaps min_epoch (row ∷ jobs) gaps = insert_gaps min_epoch jobs (
    if is_expired min_epoch row && not (any (pair_same (row.validator, row.epoch)) gaps)
    then (row.validator, row.epoch) ∷ gaps
    else gaps)

unfoldable pub expired_row : ℕ → JobRow → JobRow
expired_row min_epoch row =
    if is_expired min_epoch row then record row { status = needs_backfill } else row

-- One transaction.
unfoldable pub expire_jobs : LiveStore → ℕ → LiveStore
expire_jobs s min_epoch = record {
  tables = record {
    attestation_duties = s.tables.attestation_duties;
    block_proposals = s.tables.block_proposals;
    sync_duties = s.tables.sync_duties;
    completed_scans = s.tables.completed_scans;
    live_gaps = insert_gaps min_epoch s.jobs s.tables.live_gaps;
  };
  blocks = s.blocks;
  coverage = s.coverage;
  tracking_start = s.tracking_start;
  jobs = map (expired_row min_epoch) s.jobs;
}

-- SELECT MAX(slot) FROM live_blocks WHERE slot < floor
unfoldable pub anchor_slot : ℕ → HashMap ℕ (BlockRoot × BlockRoot) → Option ℕ
anchor_slot floor [] = none
anchor_slot floor ((slot, block) ∷ blocks) =
    let later = anchor_slot floor blocks in
    if ltb slot floor then some (elim later [ none ↦ slot | some s ↦ max slot s ]) else later

-- `slot < NULL` deletes nothing.
unfoldable pub is_behind_anchor : Option ℕ → ℕ → Bool
is_behind_anchor none slot = false
is_behind_anchor (some anchor) slot = ltb slot anchor

unfoldable pub prune_completed_evidence : ChainSpec → LiveStore → ℕ → LiveStore
prune_completed_evidence spec s retain_epoch =
    let floor = epoch_start_slot spec retain_epoch in
    record {
      tables = s.tables;
      blocks =
          retain (λ slot block. not (is_behind_anchor (anchor_slot floor s.blocks) slot)) s.blocks;
      coverage = filter_by (λ (entry : ℕ × ℕ). not (ltb entry.1 floor)) s.coverage;
      tracking_start = s.tracking_start;
      jobs =
          filter_by
            (λ (job : JobRow). not (
              ltb job.epoch retain_epoch
              && is_completed s.tables.completed_scans (job.validator, job.epoch)))
            s.jobs;
    }
