-- ===== src/Scanner/Attestations/LiveSlot/Errors.antt =====
-- What `scan_live_attestations_in_slot` writes and reports (src/scanner/attestations/mod.rs).
use dabeacon_indexer.Prelude.{
  ℕ, Bool, false, ◌==◌, String, HashMap, List, [], ◌∷◌, All, Option, none, some, or_else,
  if◌then◌else◌, ◌≡◌, ◌≢◌, refl, sym, ap, ◌∙◌, inl, inr, Bool-cases,
}
use dabeacon_indexer.Error.{Error, is_unavailable_input, Result, ok, err, panic, Result-cases}
use dabeacon_indexer.Chain.{ChainSpec}
use dabeacon_indexer.Beacon.Types.{BlockRoot, Committee, AttesterDuty, SignedBeaconBlock, slot}
use dabeacon_indexer.Store.Tables.{Store}
use dabeacon_indexer.Scanner.Attestations.LiveSlot.{
  Outcome, keep_error, result_of, scan_epochs, candidate_epochs, scan_live_attestation_epoch,
  scan_live_attestations_in_slot,
}

-- The results of the epochs, each scanned on the store that the one before leaves.
unfoldable pub results : (Store → ℕ → Outcome) → Store → List ℕ → List (Result (Unit {0}))
results scan store [] = []
results scan store (epoch ∷ epochs) =
    (scan store epoch).1 ∷ results scan (scan store epoch).0 epochs

-- The store that the last of them leaves.
unfoldable pub final_store : (Store → ℕ → Outcome) → Store → List ℕ → Store
final_store scan store [] = store
final_store scan store (epoch ∷ epochs) = final_store scan (scan store epoch).0 epochs

-- The first error, and the first one that is not of unavailable input.
unfoldable pub first_error : List (Result (Unit {0})) → Option Error
first_error [] = none
first_error (err e ∷ rs) = some e
first_error (_ ∷ rs) = first_error rs

unfoldable pub first_grave : List (Result (Unit {0})) → Option Error
first_grave [] = none
first_grave (err e ∷ rs) = if is_unavailable_input e then first_grave rs else some e
first_grave (_ ∷ rs) = first_grave rs

-- The first error that is not of unavailable input, or else the first one.
abbrev pub reported_error : List (Result (Unit {0})) → Option Error
reported_error rs = or_else (first_grave rs) (first_error rs)

-- Errors kept one by one are reported as those of the whole sequence.
keep_error_lem :
    (first : Option Error) (e : Error) (rs : List (Result (Unit {0})))
    → reported_error (result_of (keep_error first e) ∷ rs)
      ≡ reported_error (result_of first ∷ err e ∷ rs)
unfolding keep_error first_error first_grave
keep_error_lem none e rs = refl
keep_error_lem (some f) e rs = elim (Bool-cases (is_unavailable_input f)) [
  | inl light ↦ elim (Bool-cases (is_unavailable_input e)) [
    | inl also ↦
        let same : keep_error (some f) e ≡ some f = rw (light, also) refl in
        ap (λ (o : Option Error). reported_error (result_of o ∷ rs)) same
        ∙ (rw (also, first_grave) refl)
    | inr grave ↦
        let other : keep_error (some f) e ≡ some e = rw (light, grave) refl in
        ap (λ (o : Option Error). reported_error (result_of o ∷ rs)) other
        ∙ (rw (light, first_grave) (rw (grave, first_grave) refl))
  ]
  | inr grave ↦
      let same : keep_error (some f) e ≡ some f = rw grave refl in
      ap (λ (o : Option Error). reported_error (result_of o ∷ rs)) same
      ∙ (rw (grave, first_grave) refl)
]

ok_lem :
    (first : Option Error) (rs : List (Result (Unit {0})))
    → reported_error (result_of first ∷ ok tt ∷ rs) ≡ reported_error (result_of first ∷ rs)
unfolding first_error first_grave
ok_lem none rs = refl
ok_lem (some f) rs = refl

reported_alone : (f : Error) → result_of (reported_error (err f ∷ [])) ≡ err f
unfolding first_error first_grave
reported_alone f = elim (Bool-cases (is_unavailable_input f)) [
  | inl light ↦ rw (light, first_grave) refl
  | inr grave ↦ rw (grave, first_grave) refl
]

module _ (scan : Store → ℕ → Outcome) where
  -- Every epoch is scanned, and the error is reported.
  abbrev pub ended_by : Store → List ℕ → Option Error → Outcome
  ended_by store epochs error = (final_store scan store epochs, result_of error)

  ended :
      (store : Store) (epochs : List ℕ) {o p : Option Error}
      → o ≡ p
      → ended_by store epochs o ≡ ended_by store epochs p
  ended store epochs same = ap (ended_by store epochs) same

  -- Where no epoch panics, every epoch is scanned.
  scan_epochs_lem :
      (store : Store) (first : Option Error) (epochs : List ℕ)
      → All (λ r. r ≢ panic) (results scan store epochs)
      → scan_epochs scan store first epochs
        ≡ ended_by store epochs (reported_error (result_of first ∷ results scan store epochs))
  unfolding scan_epochs results final_store first_error first_grave
  scan_epochs_lem store none [] h = refl
  scan_epochs_lem store (some f) [] h =
      ap (λ (r : Result (Unit {0})). (store, r)) (sym (reported_alone f))
  scan_epochs_lem store first (epoch ∷ epochs) h = elim (Result-cases (scan store epoch).1) [
    | inl (u, fine) ↦
        rw (fine, scan_epochs)
          (scan_epochs_lem (scan store epoch).0 first epochs h.1
            ∙ ended (scan store epoch).0 epochs
                (sym (ok_lem first (results scan (scan store epoch).0 epochs))))
    | inr (inl (e, fails)) ↦
        rw (fails, scan_epochs)
          (scan_epochs_lem (scan store epoch).0 (keep_error first e) epochs h.1
            ∙ ended (scan store epoch).0 epochs
                (keep_error_lem first e (results scan (scan store epoch).0 epochs)))
    | inr (inr panics) ↦ absurd (h.0 panics)
  ]

  scan_epochs-ended :
      (store : Store) (epochs : List ℕ)
      → All (λ r. r ≢ panic) (results scan store epochs)
      → scan_epochs scan store none epochs
        ≡ ended_by store epochs (reported_error (results scan store epochs))
  unfolding first_error first_grave
  scan_epochs-ended store epochs h = scan_epochs_lem store none epochs h

-- Where no epoch panics, the scan of a block behind genesis scans every candidate epoch in turn,
-- whatever fails, each on the store that the one before leaves; it reports the first error that is
-- not of unavailable input, or else the first one, or else success.
pub scan_live_attestations_in_slot-ended :
    (spec : ChainSpec) (hex_decode : String → Option (List ℕ))
    (get_committees : ℕ → Result (List Committee))
    (get_attester_duties : ℕ → List ℕ → Result (List AttesterDuty)) (v : ℕ) (vs : List ℕ)
    (block : SignedBeaconBlock) (roots : HashMap ℕ BlockRoot) (finalized : Bool) (store : Store)
    → let scan =
        scan_live_attestation_epoch spec hex_decode get_committees get_attester_duties
          (v ∷ vs)
          block
          roots
          finalized in
      let epochs =
        candidate_epochs spec hex_decode get_committees get_attester_duties
          (v ∷ vs)
          block
          roots
          finalized in
      (slot block == 0) ≡ false
      → All (λ r. r ≢ panic) (results scan store epochs)
      → scan_live_attestations_in_slot spec hex_decode get_committees get_attester_duties
          (v ∷ vs)
          block
          roots
          finalized
          store
        ≡ ended_by scan store epochs (reported_error (results scan store epochs))
unfolding scan_live_attestations_in_slot
scan_live_attestations_in_slot-ended spec hex_decode get_committees get_attester_duties v vs block
      roots finalized store later no_panic =
    rw later (scan_epochs-ended _ store _ no_panic)
