-- ===== src/Store/Live/Steps.antt =====
-- What the live worker and the scans do to the database, in any order: the writers' calls and the
-- operations of src/db/scanner/live.rs as the steps of a relation.
use dabeacon_indexer.Prelude.{
  ℕ, Bool, true, false, ◌&&◌, not, arith, String, List, Option, nat_key, pair_key, ◌≡◌,
}
use dabeacon_indexer.Chain.{ChainSpec}
use dabeacon_indexer.Beacon.Types.{BlockRoot}
use dabeacon_indexer.Store.Table.{Keeps, retain-Keeps}
use dabeacon_indexer.Store.Tables.{AttestationDuty, is_completed}
use dabeacon_indexer.Store.Writes.{Write, apply}
use dabeacon_indexer.Store.Writes.Frozen.{IsFrozen, apply-is_completed, apply-IsFrozen}
use dabeacon_indexer.Store.Live.{
  Component, LiveStore, register_tracking_start, record_block, record_coverage, invalidate_from,
}
use dabeacon_indexer.Store.Live.Jobs.{
  LiveJob, set_jobs, enqueue_jobs, complete_job, fail_job, expire_jobs, prune_completed_evidence,
}

-- A writer's call on the tables of the scans.
unfoldable pub write_tables : ChainSpec → LiveStore → Write → LiveStore
write_tables spec s w = record {
  tables = apply spec s.tables w;
  blocks = s.blocks;
  coverage = s.coverage;
  tracking_start = s.tracking_start;
  jobs = s.jobs;
}

pub data Step (spec : ChainSpec) (s : LiveStore) : LiveStore → Type 0 where
  written : (w : Write) → Step spec s (write_tables spec s w)
  registered :
      (validators : List ℕ) (epoch : ℕ) → Step spec s (register_tracking_start s validators epoch)
  block_recorded :
      (slot : ℕ) (root parent : BlockRoot) → Step spec s (record_block s slot root parent)
  covered : (validators : List ℕ) (slot : ℕ) → Step spec s (record_coverage s validators slot)
  invalidated : (slot : ℕ) → Step spec s (invalidate_from spec s slot)
  enqueued :
      (now epoch : ℕ) (slot : Option ℕ) (component : Component) (validators : List ℕ)
      (root : Option BlockRoot)
      → Step spec s (enqueue_jobs s now epoch slot component validators root)
  completed :
      (job : LiveJob) (payload : String) (dependency : BlockRoot)
      → Step spec s (complete_job s job payload dependency)
  failed : (now : ℕ) (job : LiveJob) → Step spec s (fail_job s now job)
  expired : (epoch : ℕ) → Step spec s (expire_jobs s epoch)
  pruned : (epoch : ℕ) → Step spec s (prune_completed_evidence spec s epoch)

pub data Reach (spec : ChainSpec) (s : LiveStore) : LiveStore → Type 0 where
  here : Reach spec s s
  next : {t u : LiveStore} → Reach spec s t → Step spec t u → Reach spec s u

not_cut : (b : Bool) → not (b && false) ≡ true
not_cut b = ground arith

module _ (spec : ChainSpec) (key : ℕ × ℕ) (old : AttestationDuty) where
  -- The duty's scan is complete, and its row is finalized and as `old`.
  pub record IsSettled (s : LiveStore) : Type 0 where
    pub done : is_completed s.tables.completed_scans key ≡ true
    pub kept : Keeps (IsFrozen old) key s.tables.attestation_duties

  Step-IsSettled : {s t : LiveStore} → Step spec s t → IsSettled s → IsSettled t
  unfolding write_tables register_tracking_start record_block record_coverage invalidate_from
      enqueue_jobs complete_job fail_job expire_jobs prune_completed_evidence set_jobs
  Step-IsSettled {s = s} (written w) h = record {
    done = apply-is_completed spec key s.tables w h.done;
    kept = apply-IsFrozen spec key old s.tables w h.done h.kept;
  }
  Step-IsSettled {s = s} (invalidated slot) h = record {
    done = h.done;
    kept =
        retain-Keeps (IsFrozen old) _ key s.tables.attestation_duties h.kept
          (λ v frozen. rw frozen.1 (not_cut _));
  }
  Step-IsSettled (registered validators epoch) h = record { done = h.done; kept = h.kept }
  Step-IsSettled (block_recorded slot root parent) h = record { done = h.done; kept = h.kept }
  Step-IsSettled (covered validators slot) h = record { done = h.done; kept = h.kept }
  Step-IsSettled (enqueued now epoch slot component validators root) h = record {
    done = h.done;
    kept = h.kept;
  }
  Step-IsSettled (completed job payload dependency) h = record { done = h.done; kept = h.kept }
  Step-IsSettled (failed now job) h = record { done = h.done; kept = h.kept }
  Step-IsSettled (expired epoch) h = record { done = h.done; kept = h.kept }
  Step-IsSettled (pruned epoch) h = record { done = h.done; kept = h.kept }

  -- A duty row that is finalized, and whose scan is complete, keeps its slots, its committee, its
  -- rewards and that it is finalized through any sequence of scans, reorgs, job updates, expiries and
  -- prunings; and its scan stays complete.
  pub Reach-IsSettled : {s t : LiveStore} → IsSettled s → Reach spec s t → IsSettled t
  Reach-IsSettled h here = h
  Reach-IsSettled h (next r st) = Step-IsSettled st (Reach-IsSettled h r)
