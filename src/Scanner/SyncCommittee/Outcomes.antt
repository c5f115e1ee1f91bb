-- ===== src/Scanner/SyncCommittee/Outcomes.antt =====
-- `sync_outcomes` of src/scanner/sync_committee.rs against a count of the positions.
use dabeacon_indexer.Prelude.{
  ℕ, zero, suc, ◌+◌, ◌==◌, ltb, if◌then◌else◌, Bool, true, false, ◌&&◌, not, List, [], ◌∷◌, Option,
  none, some, HashMap, lookup, insert, lookup-insert, nat_key, ==_iff, minus, up_or_down, up-minus,
  down-minus, ◌≡◌, refl, ap, ap₂, ◌∙◌, arith, Bool-cases, inl, inr,
}
use dabeacon_indexer.Scanner.SyncCommittee.{Outcome, bump, outcomes_from, sync_outcomes}

-- The positions of a validator whose bit is `set`.
unfoldable pub positions : Bool → ℕ → List ℕ → List Bool → ℕ
positions set v [] bits = 0
positions set v (w ∷ ws) [] = 0
positions set v (w ∷ ws) (true ∷ bits) = (if w == v && set then 1 else 0) + positions set v ws bits
positions set v (w ∷ ws) (false ∷ bits) =
    (if w == v && not set then 1 else 0) + positions set v ws bits

-- What `set` set and `unset` unset positions come to.
abbrev pub tally : ℕ → ℕ → Option Outcome
tally set unset = if set + unset == 0 then none else some (ltb 0 set, minus set unset)

bump-tally_set : (set unset : ℕ) → some (bump true (tally set unset)) ≡ tally (set + 1) unset
unfolding bump up_or_down minus
bump-tally_set zero zero = refl
bump-tally_set (suc a) unset = let here = up-minus (suc a) unset in ground (arith, here)
bump-tally_set zero (suc b) = let here = up-minus zero (suc b) in ground (arith, here)

bump-tally_unset : (set unset : ℕ) → some (bump false (tally set unset)) ≡ tally set (unset + 1)
unfolding bump up_or_down minus
bump-tally_unset zero zero = refl
bump-tally_unset (suc a) unset = let here = down-minus (suc a) unset in ground (arith, here)
bump-tally_unset zero (suc b) = let here = down-minus zero (suc b) in ground (arith, here)

module _ (v w : ℕ) (outcomes : HashMap ℕ Outcome) (set unset : ℕ)
    (h : lookup v outcomes ≡ tally set unset) where
  lookup-bump :
      (bit : Bool)
      → lookup v (insert w (bump bit (lookup w outcomes)) outcomes)
        ≡ tally
            (set + (if w == v && bit then 1 else 0))
            (unset + (if w == v && not bit then 1 else 0))
  lookup-bump bit = elim (Bool-cases (w == v)) [
    | inl same ↦
        lookup-insert w v (bump bit (lookup w outcomes)) outcomes
        ∙ rw (same, ap (λ (t : ℕ). lookup t outcomes) ((==_iff w v).0 same) ∙ h) (counted bit)
    | inr other ↦
        lookup-insert w v (bump bit (lookup w outcomes)) outcomes
        ∙ rw other (h ∙ ap₂ tally (omega arith) (omega arith))
  ]
    where
      counted :
          (bit : Bool)
          → some (bump bit (tally set unset))
            ≡ tally
                (set + (if true && bit then 1 else 0))
                (unset + (if true && not bit then 1 else 0))
      counted true = bump-tally_set set unset ∙ ap₂ tally refl (omega arith)
      counted false = bump-tally_unset set unset ∙ ap₂ tally (omega arith) refl

outcomes_from-tally :
    (v : ℕ) (committee : List ℕ) (bits : List Bool) (outcomes : HashMap ℕ Outcome) (set unset : ℕ)
    → lookup v outcomes ≡ tally set unset
    → lookup v (outcomes_from outcomes committee bits)
      ≡ tally (set + positions true v committee bits) (unset + positions false v committee bits)
unfolding outcomes_from positions
outcomes_from-tally v [] bits outcomes set unset h = h ∙ ap₂ tally (omega arith) (omega arith)
outcomes_from-tally v (w ∷ committee) [] outcomes set unset h =
    h ∙ ap₂ tally (omega arith) (omega arith)
outcomes_from-tally v (w ∷ committee) (true ∷ bits) outcomes set unset h =
    outcomes_from-tally v committee bits _ _ _ (lookup-bump v w outcomes set unset h true)
    ∙ ap₂ tally (omega arith) (omega arith)
outcomes_from-tally v (w ∷ committee) (false ∷ bits) outcomes set unset h =
    outcomes_from-tally v committee bits _ _ _ (lookup-bump v w outcomes set unset h false)
    ∙ ap₂ tally (omega arith) (omega arith)

-- A validator has an outcome exactly when it stands in the committee at a position with a bit; it
-- participated where one of its positions is set, and its net positions are the set ones less the
-- unset ones, however many positions it has.
pub lookup-sync_outcomes :
    (v : ℕ) (committee : List ℕ) (bits : List Bool)
    → lookup v (sync_outcomes committee bits)
      ≡ tally (positions true v committee bits) (positions false v committee bits)
unfolding sync_outcomes lookup
lookup-sync_outcomes v committee bits =
    outcomes_from-tally v committee bits [] 0 0 refl ∙ ap₂ tally (omega arith) (omega arith)
