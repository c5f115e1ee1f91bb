-- ===== src/Scanner/Scan/Laws.antt =====
-- What holds of all the writes of a scan (src/scanner) by its steps.
use dabeacon_indexer.Prelude.{
  ℕ, zero, suc, ◌+◌, ◌≤◌, ◌<◌, Bool, true, false, if◌then◌else◌, List, [], ◌∷◌, ◌++◌, range, All,
  ◌≡◌, refl, arith,
}
use dabeacon_indexer.Error.{ok, err, panic}
use dabeacon_indexer.Store.Writes.{Write}
use dabeacon_indexer.Scanner.Scan.{Scan, done, ◌>>=◌, for_all}

pub All-append :
    {A : Type 0} (P : A → Type 0) (xs ys : List A) → All P xs → All P ys → All P (xs ++ ys)
All-append P [] ys hx hy = hy
All-append P (x ∷ xs) ys hx hy = (hx.0, All-append P xs ys hx.1 hy)

pub All-range :
    (P : ℕ → Type 0) (start count : ℕ)
    → ((t : ℕ) → start ≤ t → t < start + count → P t)
    → All P (range start count)
All-range P start zero h = tt
All-range P start (suc count) h = (
  h start (omega arith) (omega arith),
  All-range P (start + 1) count (λ t a b. h t (omega arith) (omega arith)),
)

module _ (P : Write → Type 0) where
  pub All->>= :
      {A B : Type 0} (m : Scan A) (next : A → Scan B)
      → All P m.0
      → ((a : A) → m.1 ≡ ok a → All P (next a).0)
      → All P (m >>= next).0
  unfolding ◌>>=◌
  All->>= (written, ok a) next h k = All-append P written (next a).0 h (k a refl)
  All->>= (written, err e) next h k = h
  All->>= (written, panic) next h k = h

  pub All-for_all :
      {A : Type 0} (Q : A → Type 0) (step : A → Scan (Unit {0}))
      → ((a : A) → Q a → All P (step a).0)
      → (xs : List A) → All Q xs
      → All P (for_all step xs).0
  unfolding for_all
  All-for_all Q step h [] q = tt
  All-for_all Q step h (x ∷ xs) q =
      All->>= (step x) (λ _. for_all step xs) (h x q.0) (λ _ _. All-for_all Q step h xs q.1)

  -- A step under a test.
  pub All-if :
      (b : Bool) (m : Scan (Unit {0})) → (b ≡ true → All P m.0) → All P (if b then m else done).0
  All-if true m h = h refl
  All-if false m h = tt

  -- A step for a list that is not empty.
  pub All-nonempty :
      {A : Type 0} (xs : List A) (m : Scan (Unit {0}))
      → All P m.0
      → All P (elim xs as (λ _. Scan (Unit {0})) [ [] ↦ done | x ∷ rest ↦ m ]).0
  All-nonempty [] m h = tt
  All-nonempty (x ∷ xs) m h = h

-- A scan that succeeds has taken both steps, and its writes are theirs in order.
pub >>=-ok :
    {A B : Type 0} (m : Scan A) (next : A → Scan B) (b : B)
    → (m >>= next).1 ≡ ok b
    → (a : A) × (m.1 ≡ ok a) × ((next a).1 ≡ ok b) × ((m >>= next).0 ≡ m.0 ++ (next a).0)
unfolding ◌>>=◌
>>=-ok (written, ok a) next b h = (a, refl, h, refl)
>>=-ok (written, err e) next b h = cc
>>=-ok (written, panic) next b h = cc
