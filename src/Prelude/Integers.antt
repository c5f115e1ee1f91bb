-- ===== src/Prelude/Integers.antt =====
-- Signed integers over the native numbers, under the library's names.
use Prim.Native.Nat.{ℕ, zero, suc, ◌+◌, ◌-◌, ◌%◌, ◌^◌, ◌<◌}
use mathlib.Core.Path.{◌≡◌, refl}
use mathlib.Core.Bool.{Bool, true, false, not}
use native.Mathlib.Omega.{arith}
use dabeacon_indexer.Prelude.Tests.{ltb, if◌then◌else◌}

pub data ℤ : Type 0 where
  pos negsuc : ℕ → ℤ

pub is_positive : ℤ → Bool
is_positive (pos zero) = false
is_positive (pos (suc n)) = true
is_positive (negsuc n) = false

abbrev pub abs : ℤ → ℕ
abs (pos n) = n
abs (negsuc n) = suc n

abbrev pub is_negative : ℤ → Bool
is_negative (pos n) = false
is_negative (negsuc n) = true

-- The integer of a sign, true for negative, and an absolute value.
abbrev pub signed : Bool → ℕ → ℤ
signed negative zero = pos 0
signed false (suc n) = pos (suc n)
signed true (suc n) = negsuc n

abbrev pub differ : Bool → Bool → Bool
differ true b = not b
differ false b = b

pub signed-abs : (z : ℤ) → signed (is_negative z) (abs z) ≡ z
signed-abs (pos zero) = refl
signed-abs (pos (suc n)) = refl
signed-abs (negsuc n) = refl

pub abs-signed : (negative : Bool) (n : ℕ) → abs (signed negative n) ≡ n
abs-signed negative zero = refl
abs-signed false (suc n) = refl
abs-signed true (suc n) = refl

-- The bound of an `i64`, and the `i64` of the same 64 bits as a `u64`.
abbrev pub i64_bound : ℕ
i64_bound = 2 ^ 63

unfoldable pub as_i64 : ℕ → ℤ
as_i64 n = if ltb n i64_bound then pos n else negsuc (2 ^ 64 - 1 - n)

-- An `i64` result that wraps at its bounds.
unfoldable pub wrap_i64 : ℤ → ℤ
wrap_i64 (pos n) = as_i64 (n % 2 ^ 64)
wrap_i64 (negsuc n) = as_i64 (2 ^ 64 - 1 - n % 2 ^ 64)

-- The `i32` of the same 32 bits as a `u32`, and a cast of an integer to `i32`.
unfoldable pub signed32 : ℕ → ℤ
signed32 n = if ltb n (2 ^ 31) then pos n else negsuc (2 ^ 32 - 1 - n)

unfoldable pub as_i32 : ℤ → ℤ
as_i32 (pos n) = signed32 (n % 2 ^ 32)
as_i32 (negsuc n) = signed32 (2 ^ 32 - 1 - n % 2 ^ 32)

pub wrap_i64-id : (z : ℤ) → abs z < i64_bound → wrap_i64 z ≡ z
unfolding wrap_i64 as_i64
wrap_i64-id (pos n) h = ground arith
wrap_i64-id (negsuc n) h = ground arith

-- One more, or one less.
unfoldable pub up_or_down : Bool → ℤ → ℤ
up_or_down true (pos n) = pos (n + 1)
up_or_down true (negsuc zero) = pos 0
up_or_down true (negsuc (suc n)) = negsuc n
up_or_down false (pos zero) = negsuc 0
up_or_down false (pos (suc n)) = pos n
up_or_down false (negsuc n) = negsuc (n + 1)

-- The difference of two natural numbers.
unfoldable pub minus : ℕ → ℕ → ℤ
minus a b = if ltb a b then negsuc (b - a - 1) else pos (a - b)

pub up-minus : (a b : ℕ) → up_or_down true (minus a b) ≡ minus (a + 1) b
unfolding up_or_down minus
up-minus a b = ground arith

pub down-minus : (a b : ℕ) → up_or_down false (minus a b) ≡ minus a (b + 1)
unfolding up_or_down minus
down-minus a b = ground arith
