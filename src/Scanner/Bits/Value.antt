-- ===== src/Scanner/Bits/Value.antt =====
-- Bits of a byte against the number that they stand for (src/scanner/bits.rs).
use native.Mathlib.Nat.{div-div-eq-div-mul, pow-succ', zero-div, le_trans, pow-le-pow_right}
use dabeacon_indexer.Prelude.{
  ℕ, zero, suc, ◌+◌, ◌-◌, ◌*◌, ◌/◌, ◌%◌, ◌^◌, ◌<◌, ◌≤◌, ◌==◌, ltb, Bool, true, false, ◌&&◌, ◌||◌,
  List, [], ◌∷◌, ◌++◌, ◌≡◌, refl, sym, ap, ap₂, ◌∙◌, arith, length, length-append,
}
use dabeacon_indexer.Scanner.Bits.{bit, bits_from, leading_zeros}

abbrev pub digit : Bool → ℕ
digit true = 1
digit false = 0

-- The number with these bits, the lowest first.
abbrev pub value : List Bool → ℕ
value [] = 0
value (b ∷ bs) = digit b + 2 * value bs

-- The low bits of a number, by repeated halving.
abbrev low_bits : ℕ → ℕ → List Bool
low_bits v zero = []
low_bits v (suc n) = (v % 2 == 1) ∷ low_bits (v / 2) n

half-shift : (v k : ℕ) → v / 2 ^ (k + 1) ≡ v / 2 ^ k / 2
half-shift v k =
    ap (λ (t : ℕ). v / 2 ^ t) (let e : k + 1 ≡ suc k = omega arith in e)
    ∙ (ap (λ (t : ℕ). v / t) (pow-suc_right k) ∙ sym (div-div-eq-div-mul v (2 ^ k) 2))
  where
    pow-suc_right : (j : ℕ) → 2 ^ suc j ≡ 2 ^ j * 2
    pow-suc_right j = omega (arith, pow-succ' 2 j)

bits_from-low_bits : (v k n : ℕ) → bits_from v k n ≡ low_bits (v / 2 ^ k) n
unfolding bits_from
bits_from-low_bits v k zero = refl
bits_from-low_bits v k (suc n) =
    ap (◌∷◌ (bit v k))
      (bits_from-low_bits v (k + 1) n ∙ ap (λ (t : ℕ). low_bits t n) (half-shift v k))

pub bits_from-zero : (v n : ℕ) → bits_from v 0 n ≡ low_bits v n
bits_from-zero v n =
    bits_from-low_bits v 0 n
    ∙ ap (λ (t : ℕ). low_bits t n) (let e : v / 2 ^ 0 ≡ v = omega arith in e)

low_bits-value : (bs tail : List Bool) → low_bits (value (bs ++ tail)) (length bs) ≡ bs
low_bits-value [] tail = refl
low_bits-value (true ∷ bs) tail =
    ap₂ ◌∷◌ (ground arith)
      (ap (λ (t : ℕ). low_bits t (length bs)) (omega arith) ∙ low_bits-value bs tail)
low_bits-value (false ∷ bs) tail =
    ap₂ ◌∷◌ (ground arith)
      (ap (λ (t : ℕ). low_bits t (length bs)) (omega arith) ∙ low_bits-value bs tail)

-- Reading back the first bits of a number gives those bits.
pub bits_from-value : (bs tail : List Bool) → bits_from (value (bs ++ tail)) 0 (length bs) ≡ bs
bits_from-value bs tail = bits_from-zero _ _ ∙ low_bits-value bs tail

digit_mod : (v : ℕ) → digit (v % 2 == 1) ≡ v % 2
digit_mod v = ground arith

half-first : (v n : ℕ) → v / 2 ^ suc n ≡ v / 2 / 2 ^ n
half-first v n = ap (λ (t : ℕ). v / t) (pow-succ' 2 n) ∙ sym (div-div-eq-div-mul v 2 (2 ^ n))

value-append-div : (bs tail : List Bool) → value (bs ++ tail) / 2 ^ length bs ≡ value tail
value-append-div [] tail = omega arith
value-append-div (true ∷ bs) tail =
    half-first _ (length bs)
    ∙ (ap (λ (t : ℕ). t / 2 ^ length bs) (omega arith) ∙ value-append-div bs tail)
value-append-div (false ∷ bs) tail =
    half-first _ (length bs)
    ∙ (ap (λ (t : ℕ). t / 2 ^ length bs) (omega arith) ∙ value-append-div bs tail)

-- A number has one highest bit.
highest_bit_unique : (v p n : ℕ) → v / 2 ^ p ≡ 1 → v / 2 ^ n ≡ 1 → p ≡ n
highest_bit_unique v zero zero hp hn = refl
highest_bit_unique v zero (suc n) hp hn = absurd (
    omega (
      arith,
      half-first v n,
      ap (λ (t : ℕ). t / 2 ^ n) (let e : v / 2 ≡ 0 = omega arith in e),
      zero-div (2 ^ n),
    ))
highest_bit_unique v (suc p) zero hp hn = absurd (
    omega (
      arith,
      half-first v p,
      ap (λ (t : ℕ). t / 2 ^ p) (let e : v / 2 ≡ 0 = omega arith in e),
      zero-div (2 ^ p),
    ))
highest_bit_unique v (suc p) (suc n) hp hn =
    ap suc (highest_bit_unique (v / 2) p n (sym (half-first v p) ∙ hp) (sym (half-first v n) ∙ hn))

-- The bits of `v` below `n`, put back under the rest of `v`.
value-low_bits :
    (v n : ℕ) (tail : List Bool) → value tail ≡ v / 2 ^ n → value (low_bits v n ++ tail) ≡ v
value-low_bits v zero tail h = h ∙ omega arith
value-low_bits v (suc n) tail h =
    omega (arith, digit_mod v, value-low_bits (v / 2) n tail (h ∙ half-first v n))

pub value-bits_from :
    (v n : ℕ) (tail : List Bool) → value tail ≡ v / 2 ^ n → value (bits_from v 0 n ++ tail) ≡ v
value-bits_from v n tail h =
    ap (λ (bs : List Bool). value (bs ++ tail)) (bits_from-zero v n) ∙ value-low_bits v n tail h

pub length-bits_from : (v k n : ℕ) → length (bits_from v k n) ≡ n
unfolding bits_from
length-bits_from v k zero = refl
length-bits_from v k (suc n) = ap suc (length-bits_from v (k + 1) n)

-- `7 - leading_zeros` is the position of the highest bit, checked over every byte but 0.
module _ (test : ℕ → Bool) where
  holds_up_to : ℕ → Bool
  holds_up_to (suc top) = let lower = holds_up_to top in lower && test top
  holds_up_to zero = true

  test-holds_up_to : (top byte : ℕ) → byte < top → holds_up_to top ≡ true → test byte ≡ true
  unfolding holds_up_to
  test-holds_up_to (suc top) byte below h = ground (arith, test-holds_up_to top byte)
  test-holds_up_to zero byte below h = absurd (omega arith)

abbrev highest_at : ℕ → Bool
highest_at byte =
    byte == 0 || (byte / 2 ^ (7 - leading_zeros byte) == 1 && ltb (7 - leading_zeros byte) 8)

highest_table : holds_up_to highest_at 256 ≡ true
unfolding holds_up_to leading_zeros
highest_table = refl

pub highest_bit :
    (byte : ℕ)
    → byte < 256
    → (byte == 0) ≡ false
    → (byte / 2 ^ (7 - leading_zeros byte) ≡ 1) × (7 - leading_zeros byte < 8)
highest_bit byte small nonzero =
    ground (arith, test-holds_up_to highest_at 256 byte small highest_table)

value-lt : (bs : List Bool) → value bs < 2 ^ length bs
value-lt [] = omega arith
value-lt (true ∷ bs) = omega (arith, value-lt bs, pow-succ' 2 (length bs))
value-lt (false ∷ bs) = omega (arith, value-lt bs, pow-succ' 2 (length bs))

byte_value : (bits : List Bool) → length bits < 8 → value (bits ++ true ∷ []) < 256
byte_value bits short = le_trans (value-lt (bits ++ true ∷ [])) (pow_le (length _) longer)
  where
    longer : length (bits ++ true ∷ []) ≤ 8
    longer = omega (arith, length-append bits (true ∷ []))

    pow_le : (n : ℕ) → n ≤ 8 → 2 ^ n ≤ 256
    pow_le n h = pow-le-pow_right {n = 2} (omega arith) h

sentinel-nonzero : (bits : List Bool) → (value (bits ++ true ∷ []) == 0) ≡ false
sentinel-nonzero [] = refl
sentinel-nonzero (b ∷ bits) = ground (arith, sentinel-nonzero bits)

-- The sentinel above fewer than eight bits: the byte is not 0 and its highest bit is the sentinel.
pub sentinel_position :
    (bits : List Bool)
    → length bits < 8
    → ((value (bits ++ true ∷ []) == 0) ≡ false)
      × (7 - leading_zeros (value (bits ++ true ∷ [])) ≡ length bits)
sentinel_position bits short = (
  nonzero,
  highest_bit_unique v _ (length bits) (highest_bit v small nonzero).0 (value-append-div bits _),
)
  where
    v : ℕ
    v = value (bits ++ true ∷ [])

    small : v < 256
    small = byte_value bits short

    nonzero : (v == 0) ≡ false
    nonzero = sentinel-nonzero bits
