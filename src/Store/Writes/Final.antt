-- ===== src/Store/Writes/Final.antt =====
-- A duty row of src/db/scanner never loses that it is finalized.
use dabeacon_indexer.Prelude.{
  ℕ, Bool, true, false, List, [], ◌∷◌, Option, none, some, pair_key, pair_same, Bool-cases, inl,
  inr, ◌≡◌, arith,
}
use dabeacon_indexer.Chain.{ChainSpec}
use dabeacon_indexer.Store.Table.{Keeps, upsert-Keeps, update-Keeps}
use dabeacon_indexer.Store.Tables.{
  DutyColumns, AttestationDuty, RewardColumns, InclusionDetails, Store, set_duties,
}
use dabeacon_indexer.Store.Duties.{
  upsert_attestation_duty, update_attestation_rewards_batch, repair_finalized_inclusion,
  duty_replaces, duty_merge, duty_rewarded, duty_repaired,
}
use dabeacon_indexer.Store.Completion.{mark_complete, duty_known}
use dabeacon_indexer.Store.Production.{upsert_block_proposal, upsert_sync_duty}
use dabeacon_indexer.Store.Writes.{
  Write, duty, rewards, repair, complete, proposal, sync, apply, apply_all,
}

abbrev pub IsFinal : AttestationDuty → Type 0
IsFinal row = row.columns.finalized ≡ true

duty_merge-IsFinal :
    (completed : Bool) (row : AttestationDuty) (new : DutyColumns)
    → IsFinal row
    → duty_replaces completed row new ≡ true
    → IsFinal (duty_merge row new)
unfolding duty_replaces duty_merge
duty_merge-IsFinal completed row new final replaced = ground arith

duty_rewarded-IsFinal :
    (new : Option RewardColumns) (row : AttestationDuty)
    → IsFinal row
    → IsFinal (duty_rewarded new row)
unfolding duty_rewarded
duty_rewarded-IsFinal none row final = final
duty_rewarded-IsFinal (some new) row final = ground arith

duty_repaired-IsFinal :
    (completed : Bool) (details : InclusionDetails) (row : AttestationDuty)
    → IsFinal row
    → IsFinal (duty_repaired completed details row)
unfolding duty_repaired
duty_repaired-IsFinal completed details row final = ground arith

duty_known-IsFinal :
    (scanned : Bool) (row : AttestationDuty) → IsFinal row → IsFinal (duty_known scanned row)
unfolding duty_known
duty_known-IsFinal true row final = final
duty_known-IsFinal false row final = final

module _ (spec : ChainSpec) (key : ℕ × ℕ) where
  apply-IsFinal :
      (store : Store) (write : Write)
      → Keeps IsFinal key store.attestation_duties
      → Keeps IsFinal key (apply spec store write).attestation_duties
  unfolding apply upsert_attestation_duty update_attestation_rewards_batch
      repair_finalized_inclusion mark_complete upsert_block_proposal upsert_sync_duty set_duties
  apply-IsFinal store (duty k new) kept =
      upsert-Keeps _ _ _ IsFinal key k new store.attestation_duties kept
        (λ same row final replaced. duty_merge-IsFinal _ row new final replaced)
  apply-IsFinal store (rewards batch) kept =
      update-Keeps IsFinal _ key store.attestation_duties kept (duty_rewarded-IsFinal _)
  apply-IsFinal store (repair k details) kept =
      update-Keeps IsFinal _ key store.attestation_duties kept (λ row final.
        elim (Bool-cases (pair_same k key)) [
          | inl here ↦ rw here (duty_repaired-IsFinal _ details row final)
          | inr elsewhere ↦ rw elsewhere final
        ])
  apply-IsFinal store (complete validators epoch) kept =
      update-Keeps IsFinal _ key store.attestation_duties kept (duty_known-IsFinal _)
  apply-IsFinal store (proposal slot new) kept = kept
  apply-IsFinal store (sync k new) kept = kept

  -- A finalized duty row stays finalized under any calls of the writers, be its scan complete or not.
  pub apply_all-IsFinal :
      (store : Store) (writes : List Write)
      → Keeps IsFinal key store.attestation_duties
      → Keeps IsFinal key (apply_all spec store writes).attestation_duties
  unfolding apply_all
  apply_all-IsFinal store [] kept = kept
  apply_all-IsFinal store (write ∷ writes) kept =
      apply_all-IsFinal (apply spec store write) writes (apply-IsFinal store write kept)
