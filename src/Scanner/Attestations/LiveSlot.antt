-- ===== src/Scanner/Attestations/LiveSlot.antt =====
-- src/scanner/attestations/mod.rs: the live scan of one block. What the beacon node answers for the
-- committees and the duties of an epoch are parameters; the store keeps what is written before an
-- error. `roots` is the resolved ancestry of the block.
pub mod Errors
mod Examples
use dabeacon_indexer.Prelude.{
  pos, ℕ, ◌+◌, ◌-◌, ◌==◌, ltb, leb, if◌then◌else◌, Bool, true, false, ◌&&◌, ◌||◌, not, String, List,
  [], ◌∷◌, map, filter_by, Option, none, some, HashMap, lookup, insert, nat_key, pair_key,
}
use dabeacon_indexer.Error.{
  Error, is_unavailable_input, Result, ok, err, panic, ok_or, ◌>>=◌, inconsistent_beacon_data,
}
use dabeacon_indexer.Chain.{ChainSpec, epoch_start_slot, slot_to_epoch}
use dabeacon_indexer.Beacon.Types.{
  BlockRoot, Committee, AttesterDuty, SignedBeaconBlock, slot, attestation_slots,
}
use dabeacon_indexer.Scanner.Attestations.{AttestationInclusion}
use dabeacon_indexer.Scanner.Attestations.Committees.{build_committee_map}
use dabeacon_indexer.Scanner.Attestations.Decode.{Inclusions, extract_attestation_inclusions}
use dabeacon_indexer.Scanner.Attestations.Delay.{live_effective_delay}
use dabeacon_indexer.Scanner.Attestations.Ancestry.{live_vote_context}
use dabeacon_indexer.Store.Tables.{DutyColumns, InclusionDetails, Store}
use dabeacon_indexer.Store.Duties.{upsert_attestation_duty, repair_finalized_inclusion}

-- The state after a step that may fail, and its result.
abbrev pub Outcome : Type 0
Outcome = Store × Result (Unit {0})

-- `HashSet` and `sort_unstable`: in ascending order, each once.
insert_sorted : ℕ → List ℕ → List ℕ
insert_sorted a [] = a ∷ []
insert_sorted a (b ∷ bs) =
    let rest = insert_sorted a bs in
    if a == b then b ∷ bs else if ltb a b then a ∷ b ∷ bs else b ∷ rest

sort_distinct : List ℕ → List ℕ
unfolding insert_sorted
sort_distinct [] = []
sort_distinct (a ∷ rest) = insert_sorted a (sort_distinct rest)

unfoldable pub duties_map : HashMap ℕ AttesterDuty → List AttesterDuty → HashMap ℕ AttesterDuty
duties_map found [] = found
duties_map found (duty ∷ duties) = duties_map (insert duty.validator_index duty found) duties

abbrev pub live_columns : AttesterDuty → AttestationInclusion → ℕ → DutyColumns
live_columns duty inc effective_delay = record {
  assigned_slot = duty.slot;
  committee_index = duty.committee_index;
  committee_position = duty.validator_committee_index;
  included = true;
  inclusion_slot = some inc.inclusion_slot;
  inclusion_delay = some (pos inc.inclusion_delay);
  effective_inclusion_delay = some effective_delay;
  source_correct = some inc.source_correct;
  target_correct = some inc.target_correct;
  head_correct = some inc.head_correct;
  source_reward = none;
  target_reward = none;
  head_reward = none;
  inactivity_penalty = none;
  finalized = false;
}

abbrev pub details_of : AttestationInclusion → ℕ → InclusionDetails
details_of inc effective_delay = record {
  slot = inc.inclusion_slot;
  delay = inc.inclusion_delay;
  effective_delay = effective_delay;
  source_correct = inc.source_correct;
  target_correct = inc.target_correct;
  head_correct = inc.head_correct;
}

-- The first error stays, but one of unavailable input gives way to a later one of another kind.
unfoldable pub keep_error : Option Error → Error → Option Error
keep_error none e = some e
keep_error (some first) e =
    if is_unavailable_input first && not (is_unavailable_input e) then some e else some first

abbrev pub result_of : Option Error → Result (Unit {0})
result_of none = ok tt
result_of (some e) = err e

-- The loop over the candidate epochs; a panic ends it.
unfoldable pub scan_epochs : (Store → ℕ → Outcome) → Store → Option Error → List ℕ → Outcome
scan_epochs scan store first_error [] = (store, result_of first_error)
scan_epochs scan store first_error (epoch ∷ epochs) = elim (scan store epoch).1 [
  | ok u ↦ scan_epochs scan (scan store epoch).0 first_error epochs
  | err e ↦ scan_epochs scan (scan store epoch).0 (keep_error first_error e) epochs
  | panic ↦ ((scan store epoch).0, panic)
]

module _ (spec : ChainSpec) (hex_decode : String → Option (List ℕ))
    (get_committees : ℕ → Result (List Committee))
    (get_attester_duties : ℕ → List ℕ → Result (List AttesterDuty)) (scan_validators : List ℕ)
    (block : SignedBeaconBlock) (roots : HashMap ℕ BlockRoot) (finalized : Bool) where
  abbrev min_att_slot : ℕ
  min_att_slot = epoch_start_slot spec (slot_to_epoch spec (slot block) - 1)

  abbrev max_att_slot : ℕ
  max_att_slot = slot block - 1

  -- The duty of a validator that was seen; it has to lie in the inclusion window.
  unfoldable pub checked_duty : HashMap ℕ AttesterDuty → ℕ → Result AttesterDuty
  checked_duty duties validator = do
    duty ← ok_or inconsistent_beacon_data (lookup validator duties)
    if ltb duty.slot min_att_slot || ltb max_att_slot duty.slot
        then err inconsistent_beacon_data
        else ok duty

  unfoldable pub write_inclusion : Store → ℕ → ℕ → AttestationInclusion → AttesterDuty → Store
  write_inclusion store epoch validator inc duty =
      let effective_delay = live_effective_delay roots duty.slot inc.inclusion_slot in
      let written =
        upsert_attestation_duty store (validator, epoch) (live_columns duty inc effective_delay) in
      if finalized
      then repair_finalized_inclusion written (validator, epoch) (details_of inc effective_delay)
      else written

  -- The loop over the inclusions.
  unfoldable pub write_inclusions : Store → ℕ → HashMap ℕ AttesterDuty → Inclusions → Outcome
  write_inclusions store epoch duties [] = (store, ok tt)
  write_inclusions store epoch duties ((validator, inc) ∷ inclusions) =
      elim (checked_duty duties validator) [
        | ok duty ↦
            write_inclusions (write_inclusion store epoch validator inc duty) epoch duties
              inclusions
        | err e ↦ (store, err e)
        | panic ↦ (store, panic)
      ]

  -- The inclusions of the block's attestations of an epoch, before the duties are asked for.
  unfoldable pub find_inclusions : ℕ → Result Inclusions
  find_inclusions epoch = do
    committees ← get_committees epoch
    ctx ← live_vote_context spec epoch (slot block) roots
    extract_attestation_inclusions spec hex_decode block (slot block) epoch
        (build_committee_map committees) scan_validators (some ctx) []

  unfoldable pub write_found : Store → ℕ → Inclusions → Outcome
  write_found store epoch [] = (store, ok tt)
  write_found store epoch (found ∷ inclusions) = elim (get_attester_duties epoch scan_validators) [
    | ok duties ↦ write_inclusions store epoch (duties_map [] duties) (found ∷ inclusions)
    | err e ↦ (store, err e)
    | panic ↦ (store, panic)
  ]

  unfoldable pub scan_live_attestation_epoch : Store → ℕ → Outcome
  scan_live_attestation_epoch store epoch = elim (find_inclusions epoch) [
    | ok inclusions ↦ write_found store epoch inclusions
    | err e ↦ (store, err e)
    | panic ↦ (store, panic)
  ]

  unfoldable pub candidate_epochs : List ℕ
  unfolding sort_distinct
  candidate_epochs = sort_distinct (
      map (slot_to_epoch spec)
        (filter_by (λ s. leb min_att_slot s && leb s max_att_slot) (attestation_slots block)))

  unfoldable pub scan_live_attestations_in_slot : Store → Outcome
  scan_live_attestations_in_slot store =
      let scanned = scan_epochs scan_live_attestation_epoch store none candidate_epochs in
      elim scan_validators [
        | [] ↦ (store, ok tt)
        | v ∷ vs ↦ if slot block == 0 then (store, ok tt) else scanned
      ]
