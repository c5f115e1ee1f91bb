-- ===== src/Store/Completion.antt =====
-- src/db/scanner/completion.rs, and the query for completed scans of
-- src/db/scanner/attestations.rs.
pub mod Exact
use dabeacon_indexer.Prelude.{
  ℕ, ◌/◌, ◌==◌, ltb, leb, if◌then◌else◌, Bool, true, false, ◌&&◌, ◌||◌, not, List, [], ◌∷◌, Option,
  none, some, or_else, contains, any, filter_by, HashMap, lookup, insert, nat_key, pair_key,
  pair_same, ℤ, is_positive,
}
use dabeacon_indexer.Chain.{ChainSpec}
use dabeacon_indexer.Store.Table.{upsert, update}
use dabeacon_indexer.Store.Tables.{
  DutyColumns, AttestationDuty, ProposalColumns, SyncColumns, RewardColumns, InclusionDetails,
  Store, is_completed, set_duties,
}

-- WHERE validator_index = ANY(validators) AND epoch = epoch
abbrev pub is_scanned : List ℕ → ℕ → ℕ × ℕ → Bool
is_scanned validators epoch pair = contains validators pair.0 && pair.1 == epoch

unfoldable pub duty_known : Bool → AttestationDuty → AttestationDuty
duty_known scanned duty =
    if scanned then record { columns = duty.columns; inclusion_known = true } else duty

-- INSERT .. ON CONFLICT DO NOTHING
unfoldable pub insert_scans : List ℕ → ℕ → List (ℕ × ℕ) → List (ℕ × ℕ)
insert_scans [] epoch scans = scans
insert_scans (validator ∷ validators) epoch scans =
    insert_scans validators epoch
      (if is_completed scans (validator, epoch) then scans else (validator, epoch) ∷ scans)

-- One transaction.
unfoldable pub mark_complete : Store → List ℕ → ℕ → Store
mark_complete store validators epoch = record {
  attestation_duties =
      update (λ key. duty_known (is_scanned validators epoch key)) store.attestation_duties;
  block_proposals = store.block_proposals;
  sync_duties = store.sync_duties;
  completed_scans = insert_scans validators epoch store.completed_scans;
  live_gaps = filter_by (λ pair. not (is_scanned validators epoch pair)) store.live_gaps;
}

unfoldable pub validators_with_completed_scan : Store → List ℕ → ℕ → List ℕ
validators_with_completed_scan store validators epoch =
    filter_by (λ validator. is_completed store.completed_scans (validator, epoch)) validators
