-- ===== src/Store/Writes/Frozen.antt =====
-- What no sequence of the writers' calls takes back (src/db/scanner).
use dabeacon_indexer.Prelude.{
  ℕ, Bool, true, false, List, [], ◌∷◌, Option, none, some, Bool-cases, inl, inr, nat_key, pair_key,
  pair_same, ◌≡◌, sym, ap, ◌∙◌, subst, arith, ℤ,
}
use dabeacon_indexer.Chain.{ChainSpec}
use dabeacon_indexer.Store.Table.{Keeps, upsert-Keeps, update-Keeps}
use dabeacon_indexer.Store.Tables.{
  DutyColumns, AttestationDuty, RewardColumns, InclusionDetails, Store, is_completed, set_duties,
}
use dabeacon_indexer.Store.Duties.{
  upsert_attestation_duty, update_attestation_rewards_batch, repair_finalized_inclusion,
  duty_replaces, duty_rewarded, duty_repaired,
}
use dabeacon_indexer.Store.Completion.{mark_complete, insert_scans, duty_known}
use dabeacon_indexer.Store.Production.{upsert_block_proposal, upsert_sync_duty}
use dabeacon_indexer.Store.Writes.{Write, duty, rewards, repair, complete, proposal, sync, apply}

-- What the writes leave of a row that is finalized and completed: all but the marks and the delays,
-- which a repair may fill in.
abbrev pub lasting :
    AttestationDuty → ℕ × ℕ × ℕ × Bool × Option ℕ × Option ℤ × Option ℤ × Option ℤ × Option ℤ × Bool
lasting row =
    let c = row.columns in
    (
      c.assigned_slot, c.committee_index, c.committee_position, c.included, c.inclusion_slot,
      c.source_reward, c.target_reward, c.head_reward, c.inactivity_penalty, c.finalized,
    )

-- The row keeps these columns of an earlier one, which was finalized.
abbrev pub IsFrozen : AttestationDuty → AttestationDuty → Type 0
IsFrozen old row = (lasting row ≡ lasting old) × (row.columns.finalized ≡ true)

insert_scans-is_completed :
    (validators : List ℕ) (epoch : ℕ) (scans : List (ℕ × ℕ)) (key : ℕ × ℕ)
    → is_completed scans key ≡ true
    → is_completed (insert_scans validators epoch scans) key ≡ true
unfolding insert_scans is_completed
insert_scans-is_completed [] epoch scans key h = h
insert_scans-is_completed (validator ∷ validators) epoch scans key h =
    insert_scans-is_completed validators epoch _ key (ground arith)

pub apply-is_completed :
    (spec : ChainSpec) (key : ℕ × ℕ) (store : Store) (write : Write)
    → is_completed store.completed_scans key ≡ true
    → is_completed (apply spec store write).completed_scans key ≡ true
unfolding apply upsert_attestation_duty update_attestation_rewards_batch repair_finalized_inclusion
    mark_complete upsert_block_proposal upsert_sync_duty set_duties
apply-is_completed spec key store (duty k new) h = h
apply-is_completed spec key store (rewards batch) h = h
apply-is_completed spec key store (repair k details) h = h
apply-is_completed spec key store (complete validators epoch) h =
    insert_scans-is_completed validators epoch store.completed_scans key h
apply-is_completed spec key store (proposal slot new) h = h
apply-is_completed spec key store (sync k new) h = h

duty_repaired-lasting :
    (row : AttestationDuty) (details : InclusionDetails)
    → lasting (duty_repaired true details row) ≡ lasting row
unfolding duty_repaired
duty_repaired-lasting row details = ground arith

duty_repaired-finalized :
    (row : AttestationDuty) (details : InclusionDetails)
    → (duty_repaired true details row).columns.finalized ≡ row.columns.finalized
unfolding duty_repaired
duty_repaired-finalized row details = ground arith

duty_repaired-IsFrozen :
    (old row : AttestationDuty) (details : InclusionDetails)
    → IsFrozen old row
    → IsFrozen old (duty_repaired true details row)
duty_repaired-IsFrozen old row details frozen =
    (duty_repaired-lasting row details ∙ frozen.0, duty_repaired-finalized row details ∙ frozen.1)

duty_rewarded-final :
    (row : AttestationDuty) (new : RewardColumns)
    → row.columns.finalized ≡ true
    → duty_rewarded (some new) row ≡ row
unfolding duty_rewarded
duty_rewarded-final row new final = ground arith

duty_rewarded-IsFrozen :
    (old row : AttestationDuty) (new : Option RewardColumns)
    → IsFrozen old row
    → IsFrozen old (duty_rewarded new row)
duty_rewarded-IsFrozen old row none frozen = unfold duty_rewarded in frozen
duty_rewarded-IsFrozen old row (some new) frozen =
    subst (IsFrozen old) (sym (duty_rewarded-final row new frozen.1)) frozen

duty_known-IsFrozen :
    (old row : AttestationDuty) (scanned : Bool)
    → IsFrozen old row
    → IsFrozen old (duty_known scanned row)
unfolding duty_known
duty_known-IsFrozen old row true frozen = frozen
duty_known-IsFrozen old row false frozen = frozen

never_replaced :
    (row : AttestationDuty) (new : DutyColumns)
    → row.columns.finalized ≡ true
    → duty_replaces true row new ≡ false
unfolding duty_replaces
never_replaced row new final = ground arith

module _ (spec : ChainSpec) (key : ℕ × ℕ) (old : AttestationDuty) where
  pub apply-IsFrozen :
      (store : Store) (write : Write)
      → is_completed store.completed_scans key ≡ true
      → Keeps (IsFrozen old) key store.attestation_duties
      → Keeps (IsFrozen old) key (apply spec store write).attestation_duties
  unfolding apply upsert_attestation_duty update_attestation_rewards_batch
      repair_finalized_inclusion mark_complete upsert_block_proposal upsert_sync_duty set_duties
  apply-IsFrozen store (duty k new) done kept =
      upsert-Keeps _ _ _ (IsFrozen old) key k new store.attestation_duties kept
        (λ same row frozen replaced.
          let none_replaced = never_replaced row new frozen.1 in
          let here = ap (is_completed store.completed_scans) same in cc)
  apply-IsFrozen store (rewards batch) done kept =
      update-Keeps (IsFrozen old) _ key store.attestation_duties kept
        (λ row frozen. duty_rewarded-IsFrozen old row _ frozen)
  apply-IsFrozen store (repair k details) done kept =
      update-Keeps (IsFrozen old) _ key store.attestation_duties kept (λ row frozen.
        elim (Bool-cases (pair_same k key)) [
          | inl here ↦ rw (here, done) (duty_repaired-IsFrozen old row details frozen)
          | inr elsewhere ↦ rw elsewhere frozen
        ])
  apply-IsFrozen store (complete validators epoch) done kept =
      update-Keeps (IsFrozen old) _ key store.attestation_duties kept
        (λ row frozen. duty_known-IsFrozen old row _ frozen)
  apply-IsFrozen store (proposal slot new) done kept = kept
  apply-IsFrozen store (sync k new) done kept = kept
