-- ===== src/Scanner/SyncCommittee/Reward.antt =====
-- `per_position_reward` of src/scanner/sync_committee.rs is the inverse of the product that
-- `process_epoch_sync` stores.
use native.Mathlib.Nat.{suc-mul, zero-div, zero-mod, mul-div_cancel, mul-mod_left}
use dabeacon_indexer.Prelude.{
  ℕ, zero, suc, ◌+◌, ◌*◌, ◌/◌, ◌%◌, ◌<◌, false, some, ℤ, pos, negsuc, abs, signed, ◌≡◌, refl, sym,
  ap, subst, i64_bound, wrap_i64-id, ◌∙◌, arith,
}
use dabeacon_indexer.Error.{ok}
use dabeacon_indexer.Scanner.SyncCommittee.{overflows, times, per_position_reward}

signed-false : (n : ℕ) → signed false n ≡ pos n
signed-false zero = refl
signed-false (suc n) = refl

reward-pos :
    (total m n : ℕ)
    → 0 < n
    → total / n ≡ m
    → total % n ≡ 0
    → per_position_reward (pos total) (pos n) ≡ ok (some (pos m))
unfolding per_position_reward
reward-pos total m n some_net exact divides =
    let here = signed-false m in rw (exact, divides, here) (ground arith)

-- A total above `i64::MIN` has a quotient.
no_overflow : (total n : ℕ) → suc total < i64_bound → overflows (negsuc total) (negsuc n) ≡ false
no_overflow total n h = ground arith

reward-negsuc :
    (total m n : ℕ)
    → suc total < i64_bound
    → suc total / suc n ≡ m
    → suc total % suc n ≡ 0
    → per_position_reward (negsuc total) (negsuc n) ≡ ok (some (pos m))
unfolding per_position_reward
reward-negsuc total m n fits exact divides =
    let here = signed-false m in rw (no_overflow total n fits, exact, divides, here) (ground arith)

product-pos : (m n : ℕ) → m * n < i64_bound → times (pos m) (pos n) ≡ pos (m * n)
unfolding times
product-pos m n h = rw (signed-false (m * n)) (wrap_i64-id (pos (m * n)) h)

product-negsuc :
    (m n total : ℕ)
    → m * suc n ≡ suc total
    → suc total < i64_bound
    → times (pos m) (negsuc n) ≡ negsuc total
unfolding times
product-negsuc m n total product h = rw product (wrap_i64-id (negsuc total) h)

product-zero : (n : ℕ) → times (pos 0) (negsuc n) ≡ pos 0
unfolding times
product-zero n =
    let product : 0 * suc n ≡ 0 = omega arith in rw product (wrap_i64-id (pos 0) (omega arith))

zero_reward : (k : ℕ) → per_position_reward (pos 0) (negsuc k) ≡ ok (some (pos 0))
unfolding per_position_reward
zero_reward k = rw (zero-div (suc k), zero-mod (suc k)) (ground arith)

-- From the total that `m` for each net position comes to, where it is in the range of an `i64`,
-- `per_position_reward` finds `m` again, be the net positions more or fewer than 0.
pub per_position_reward-times :
    (m : ℕ) (net_positions : ℤ)
    → 0 < abs net_positions
    → m * abs net_positions < i64_bound
    → per_position_reward (times (pos m) net_positions) net_positions ≡ ok (some (pos m))
per_position_reward-times m (pos n) some_net fits =
    rw (product-pos m n fits)
      (reward-pos (m * n) m n some_net (mul-div_cancel m some_net) (mul-mod_left m n))
per_position_reward-times zero (negsuc n) some_net fits = rw (product-zero n) (zero_reward n)
per_position_reward-times (suc m) (negsuc n) some_net fits =
    let total = n + m * suc n in
    let product : suc m * suc n ≡ suc total = suc-mul m (suc n) ∙ omega arith in
    let bounded : suc total < i64_bound = subst (λ t. t < i64_bound) product fits in
    rw (product-negsuc (suc m) n total product bounded) (
      reward-negsuc total (suc m) n bounded
        (ap (λ (t : ℕ). t / suc n) (sym product) ∙ mul-div_cancel (suc m) some_net)
        (ap (λ (t : ℕ). t % suc n) (sym product) ∙ mul-mod_left (suc m) (suc n)))
