-- ===== src/Scanner/Rewards.antt =====
-- `validate_reward_indices` of src/scanner/mod.rs and `validate_epoch_response` of
-- src/scanner/attestations/mod.rs: a response has to answer for each requested validator.
pub mod Exact
mod Examples
use dabeacon_indexer.Prelude.{
  ℕ, Bool, true, false, ◌&&◌, ◌||◌, not, if◌then◌else◌, List, [], ◌∷◌, contains,
}
use dabeacon_indexer.Error.{Result, ok, err, ensure, ◌>>◌, inconsistent_beacon_data}

subset : List ℕ → List ℕ → Bool
subset [] ys = true
subset (x ∷ xs) ys = contains ys x && subset xs ys

-- `HashSet::eq`.
abbrev same_set : List ℕ → List ℕ → Bool
unfolding subset
same_set xs ys = subset xs ys && subset ys xs

-- The loop, with the indices `seen` so far; then the comparison of the two sets.
validate_from : List ℕ → List ℕ → List ℕ → Result (Unit {0})
unfolding subset
validate_from expected seen [] = ensure (same_set seen expected) inconsistent_beacon_data
validate_from expected seen (index ∷ actual) =
    let rest = validate_from expected (index ∷ seen) actual in
    if not (contains expected index) || contains seen index
    then err inconsistent_beacon_data
    else rest

unfoldable pub validate_reward_indices : List ℕ → List ℕ → Result (Unit {0})
unfolding validate_from
validate_reward_indices expected actual = validate_from expected [] actual

-- `assigned` are the duties' validators, `rewarded` the keys of the reward map.
unfoldable pub validate_epoch_response : List ℕ → List ℕ → List ℕ → Result (Unit {0})
validate_epoch_response [] assigned rewarded = ok tt
validate_epoch_response (validator ∷ tracked) assigned rewarded =
    let rest = validate_epoch_response tracked assigned rewarded in
    if not (contains assigned validator) || not (contains rewarded validator)
    then err inconsistent_beacon_data
    else rest
