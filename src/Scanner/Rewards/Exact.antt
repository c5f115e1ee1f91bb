-- ===== src/Scanner/Rewards/Exact.antt =====
-- Which responses src/scanner accepts: those that answer once for each requested validator.
use dabeacon_indexer.Prelude.{
  ℕ, ◌+◌, ◌==◌, ==_iff, ==_refl, Bool, true, false, ◌||◌, if◌then◌else◌, List, [], ◌∷◌, contains,
  count_by, ◌≡◌, ◌↔◌, refl, arith,
}
use dabeacon_indexer.Error.{ok, ensure-ok, inconsistent_beacon_data}
use dabeacon_indexer.Scanner.Rewards.{
  subset, same_set, validate_from, validate_reward_indices, validate_epoch_response,
}

abbrev digit : Bool → ℕ
digit true = 1
digit false = 0

-- How often a response answers for a validator.
abbrev pub answers : ℕ → List ℕ → ℕ
answers v actual = count_by (λ index. index == v) actual

subset_sound :
    (xs ys : List ℕ) → subset xs ys ≡ true → (v : ℕ) → contains xs v ≡ true → contains ys v ≡ true
unfolding subset
subset_sound [] ys h v c = cc
subset_sound (x ∷ xs) ys h v c =
    let later : subset xs ys ≡ true → contains xs v ≡ true → contains ys v ≡ true =
      λ a b. subset_sound xs ys a v b in
    ground (arith, later, ==_iff x v)

subset_complete :
    (xs ys : List ℕ) → ((v : ℕ) → contains xs v ≡ true → contains ys v ≡ true) → subset xs ys ≡ true
unfolding subset
subset_complete [] ys h = refl
subset_complete (x ∷ xs) ys h =
    let here = h x (ground (arith, ==_refl x)) in
    let later = subset_complete xs ys (λ v c. h v (ground arith)) in ground (arith, here, later)

validate_from_sound :
    (expected seen actual : List ℕ)
    → validate_from expected seen actual ≡ ok tt
    → (v : ℕ) → answers v actual + digit (contains seen v) ≡ digit (contains expected v)
unfolding validate_from
validate_from_sound expected seen [] h v =
    let equal = ensure-ok (same_set seen expected) inconsistent_beacon_data h in
    let into : subset seen expected ≡ true → contains seen v ≡ true → contains expected v ≡ true =
      λ a b. subset_sound seen expected a v b in
    let back : subset expected seen ≡ true → contains expected v ≡ true → contains seen v ≡ true =
      λ a b. subset_sound expected seen a v b in
    ground (arith, equal, into, back)
validate_from_sound expected seen (x ∷ actual) h v =
    let later : validate_from expected (x ∷ seen) actual ≡ ok tt
        → answers v actual + digit (x == v || contains seen v) ≡ digit (contains expected v) =
      λ e. validate_from_sound expected (x ∷ seen) actual e v in
    ground (arith, later, ==_iff x v)

validate_from_complete :
    (expected seen actual : List ℕ)
    → ((v : ℕ) → answers v actual + digit (contains seen v) ≡ digit (contains expected v))
    → validate_from expected seen actual ≡ ok tt
unfolding validate_from
validate_from_complete expected seen [] h =
    let into = subset_complete seen expected (λ v c. let here = h v in ground arith) in
    let back = subset_complete expected seen (λ v c. let here = h v in ground arith) in
    ground (arith, into, back)
validate_from_complete expected seen (x ∷ actual) h =
    let here = h x in
    let later =
      validate_from_complete expected (x ∷ seen) actual
        (λ v. let there = h v in ground (arith, there, here, ==_iff x v, ==_refl x)) in
    ground (arith, here, later, ==_refl x)

-- A reward response is accepted exactly when it answers once for each requested validator and
-- for no other one.
pub validate_reward_indices_iff :
    (expected actual : List ℕ)
    → (validate_reward_indices expected actual ≡ ok tt)
      ↔ ((v : ℕ) → answers v actual ≡ (if contains expected v then 1 else 0))
unfolding validate_reward_indices
validate_reward_indices_iff expected actual = (
  λ h v. let all = validate_from_sound expected [] actual h v in ground (arith, all),
  λ h. validate_from_complete expected [] actual (λ v. let here = h v in ground (arith, here)),
)

-- An epoch's response is accepted exactly when every tracked validator has a duty and a reward.
pub validate_epoch_response_iff :
    (tracked assigned rewarded : List ℕ)
    → (validate_epoch_response tracked assigned rewarded ≡ ok tt) ↔ (
        (v : ℕ)
        → contains tracked v ≡ true
        → (contains assigned v ≡ true) × (contains rewarded v ≡ true))
unfolding validate_epoch_response
validate_epoch_response_iff [] assigned rewarded = (λ h v c. cc, λ h. refl)
validate_epoch_response_iff (x ∷ tracked) assigned rewarded =
    let ih = validate_epoch_response_iff tracked assigned rewarded in
    (
      λ h v c.
          let later : validate_epoch_response tracked assigned rewarded ≡ ok tt
              → contains tracked v ≡ true
              → (contains assigned v ≡ true) × (contains rewarded v ≡ true) =
            λ a b. ih.0 a v b in
          ground (arith, later, ==_iff x v),
      λ h.
          let here = h x (ground (arith, ==_refl x)) in
          let later = ih.1 (λ v c. h v (ground arith)) in ground (arith, here, later),
    )
