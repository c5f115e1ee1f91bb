-- ===== src/Store/Live/Expiry.antt =====
-- What `expire_jobs` of src/db/scanner/live.rs leaves of the jobs and the gaps.
use dabeacon_indexer.Prelude.{
  ℕ, suc, length, if◌then◌else◌, Bool, true, false, ◌&&◌, ◌||◌, not, List, [], ◌∷◌, map, any,
  pair_key, pair_same, pair_same_iff, All, ◌≡◌, refl, ap, ◌∙◌, Bool-cases, inl, inr, arith,
}
use dabeacon_indexer.Store.Live.{JobRow, LiveStore}
use dabeacon_indexer.Store.Live.Jobs.{is_expired, insert_gaps, expired_row, expire_jobs}

-- An expired job of the pair's validator and epoch.
abbrev pub expires : ℕ → ℕ × ℕ → JobRow → Bool
expires min_epoch pair row = is_expired min_epoch row && pair_same pair (row.validator, row.epoch)

-- The gaps with that of one job, if it is expired.
abbrev one_more : ℕ → JobRow → List (ℕ × ℕ) → List (ℕ × ℕ)
one_more min_epoch row gaps =
    if is_expired min_epoch row && not (any (pair_same (row.validator, row.epoch)) gaps)
    then (row.validator, row.epoch) ∷ gaps
    else gaps

length-map : {A B : Type 0} (f : A → B) (xs : List A) → length (map f xs) ≡ length xs
length-map f [] = refl
length-map f (x ∷ xs) = ap suc (length-map f xs)

any-one_more :
    (min_epoch : ℕ) (pair : ℕ × ℕ) (row : JobRow) (gaps : List (ℕ × ℕ))
    → any (pair_same pair) (one_more min_epoch row gaps)
      ≡ (expires min_epoch pair row || any (pair_same pair) gaps)
any-one_more min_epoch pair row gaps =
    let p = pair_same pair (row.validator, row.epoch) in
    let there = any (pair_same (row.validator, row.epoch)) gaps in
    let moved = λ (same : p ≡ true).
      ap (λ (q : ℕ × ℕ). any (pair_same q) gaps)
        ((pair_same_iff pair (row.validator, row.epoch)).0 same) in
    elim (Bool-cases (is_expired min_epoch row)) [
      | inl expired ↦ elim (Bool-cases there) [
        | inl known ↦ elim (Bool-cases p) [
          | inl same ↦ rw (expired, known, same) (moved same ∙ known)
          | inr other ↦ rw (expired, known, other) refl
        ]
        | inr unknown ↦ rw (expired, unknown) refl
      ]
      | inr live ↦ rw live refl
    ]

shuffle : (a b c : Bool) → (a || (b || c)) ≡ ((b || a) || c)
shuffle a b c = ground arith

any-insert_gaps :
    (min_epoch : ℕ) (pair : ℕ × ℕ) (jobs : List JobRow) (gaps : List (ℕ × ℕ))
    → any (pair_same pair) (insert_gaps min_epoch jobs gaps)
      ≡ (any (expires min_epoch pair) jobs || any (pair_same pair) gaps)
unfolding insert_gaps
any-insert_gaps min_epoch pair [] gaps = refl
any-insert_gaps min_epoch pair (row ∷ jobs) gaps =
    any-insert_gaps min_epoch pair jobs (one_more min_epoch row gaps)
    ∙ (ap (λ (b : Bool). any (expires min_epoch pair) jobs || b)
          (any-one_more min_epoch pair row gaps)
        ∙ shuffle (any (expires min_epoch pair) jobs) (expires min_epoch pair row)
            (any (pair_same pair) gaps))

expired_row-is_expired :
    (min_epoch : ℕ) (row : JobRow) → is_expired min_epoch (expired_row min_epoch row) ≡ false
unfolding is_expired expired_row
expired_row-is_expired min_epoch row = ground arith

All-expired :
    (min_epoch : ℕ) (jobs : List JobRow)
    → All (λ row. is_expired min_epoch row ≡ false) (map (expired_row min_epoch) jobs)
All-expired min_epoch [] = tt
All-expired min_epoch (row ∷ jobs) =
    (expired_row-is_expired min_epoch row, All-expired min_epoch jobs)

-- Expiry loses no work silently: behind it no job before the window is pending, and a pair of a
-- validator and an epoch counts as a gap exactly when it did before or had a pending job there. No job
-- row is added or taken away.
pub expire_jobs-gaps :
    (s : LiveStore) (min_epoch : ℕ) (pair : ℕ × ℕ)
    → All (λ row. is_expired min_epoch row ≡ false) (expire_jobs s min_epoch).jobs
      × (any (pair_same pair) (expire_jobs s min_epoch).tables.live_gaps
          ≡ (any (expires min_epoch pair) s.jobs || any (pair_same pair) s.tables.live_gaps))
      × (length (expire_jobs s min_epoch).jobs ≡ length s.jobs)
unfolding expire_jobs
expire_jobs-gaps s min_epoch pair = (
  All-expired min_epoch s.jobs,
  any-insert_gaps min_epoch pair s.jobs s.tables.live_gaps,
  length-map (expired_row min_epoch) s.jobs,
)
