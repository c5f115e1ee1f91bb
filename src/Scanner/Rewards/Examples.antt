-- ===== src/Scanner/Rewards/Examples.antt =====
-- The checks of responses on concrete inputs.
use dabeacon_indexer.Prelude.{ℕ, List, [], ◌∷◌, contains, if◌then◌else◌, ◌≡◌, ◌↔◌, true}
use dabeacon_indexer.Error.{ok}
use dabeacon_indexer.Scanner.Rewards.{validate_reward_indices, validate_epoch_response}
use dabeacon_indexer.Scanner.Rewards.Exact.{
  answers, validate_reward_indices_iff, validate_epoch_response_iff,
}

abbrev requested : List ℕ
requested = 7 ∷ 9 ∷ []

abbrev answered : List ℕ
answered = 9 ∷ 7 ∷ []

validate_reward_indices_iff_example :
    (validate_reward_indices requested answered ≡ ok tt)
    ↔ ((v : ℕ) → answers v answered ≡ (if contains requested v then 1 else 0))
validate_reward_indices_iff_example = validate_reward_indices_iff requested answered

validate_epoch_response_iff_example :
    (validate_epoch_response requested answered requested ≡ ok tt) ↔ (
      (v : ℕ)
      → contains requested v ≡ true
      → (contains answered v ≡ true) × (contains requested v ≡ true))
validate_epoch_response_iff_example = validate_epoch_response_iff requested answered requested
