-- ===== src/Store/Duties/Earliest.antt =====
-- Which inclusion a live write leaves in a row of `attestation_duties`.
use dabeacon_indexer.Prelude.{
  ℕ, min, Bool, false, some, lookup, pair_key, if◌then◌else◌, ◌≡◌, arith,
}
use dabeacon_indexer.Store.Table.{Keeps, lookup-upsert}
use dabeacon_indexer.Store.Tables.{DutyColumns, AttestationDuty, Store, is_completed}
use dabeacon_indexer.Store.Duties.{upsert_attestation_duty, duty_replaces, duty_merge}

merged_slot :
    (completed : Bool) (old : AttestationDuty) (new : DutyColumns) (s t : ℕ)
    → old.columns.finalized ≡ false
    → old.columns.inclusion_slot ≡ some s
    → new.finalized ≡ false
    → new.inclusion_slot ≡ some t
    → (if duty_replaces completed old new then duty_merge old new else old).columns.inclusion_slot
      ≡ some (min s t)
unfolding duty_replaces duty_merge
merged_slot completed old new s t open_row there live seen = ground arith

-- Where neither the stored row nor the write is finalized and both know an inclusion, the row
-- keeps the earlier one of the two slots.
pub upsert_attestation_duty_earliest :
    (store : Store) (key : ℕ × ℕ) (old : AttestationDuty) (new : DutyColumns) (s t : ℕ)
    → lookup key store.attestation_duties ≡ some old
    → old.columns.finalized ≡ false
    → old.columns.inclusion_slot ≡ some s
    → new.finalized ≡ false
    → new.inclusion_slot ≡ some t
    → Keeps
        (λ row. row.columns.inclusion_slot ≡ some (min s t))
        key
        (upsert_attestation_duty store key new).attestation_duties
unfolding upsert_attestation_duty
upsert_attestation_duty_earliest store key old new s t found open_row there live seen = (
  _,
  lookup-upsert _ _ _ key new old store.attestation_duties found,
  merged_slot (is_completed store.completed_scans key) old new s t open_row there live seen,
)
