-- ===== src/Store/Table.antt =====
-- A table as a map from the primary key to the other columns, and what the SQL statements of
-- src/db/scanner do to one.
use dabeacon_indexer.Prelude.{
  Bool, Bool-cases, if◌then◌else◌, [], ◌∷◌, Option-cases, none, some, some-inj, Key, HashMap,
  lookup, insert, lookup-insert, ◌≡◌, refl, sym, ap, ap₂, ◌∙◌, subst, true, false, inl, inr,
}

module _ {K V : Type 0} ⦃e : Key K⦄ where
  -- INSERT .. ON CONFLICT (key) DO UPDATE SET merge WHERE replaces
  unfoldable pub upsert :
      {W : Type 0} → (V → W → Bool) → (V → W → V) → (W → V) → K → W → HashMap K V → HashMap K V
  upsert replaces merge create k w rows = elim (lookup k rows) [
    | none ↦ insert k (create w) rows
    | some old ↦ if replaces old w then insert k (merge old w) rows else rows
  ]

  -- UPDATE of every row by a function of its key and its columns.
  unfoldable pub update : (K → V → V) → HashMap K V → HashMap K V
  update f [] = []
  update f ((k, v) ∷ rows) = (k, f k v) ∷ update f rows

  -- DELETE of the rows that a test does not keep.
  unfoldable pub retain : (K → V → Bool) → HashMap K V → HashMap K V
  retain keep [] = []
  retain keep ((k, v) ∷ rows) =
      let rest = retain keep rows in if keep k v then (k, v) ∷ rest else rest

  -- The row of a key is there and satisfies the predicate.
  abbrev pub Keeps : (V → Type 0) → K → HashMap K V → Type 0
  Keeps P k rows = (v : V) × (lookup k rows ≡ some v) × P v

  pub insert-Keeps :
      (P : V → Type 0) (j k : K) (v : V) (rows : HashMap K V)
      → Keeps P j rows
      → (k ≡ j → P v)
      → Keeps P j (insert k v rows)
  insert-Keeps P j k v rows (old, found, holds) h = elim (Bool-cases (e.same k j)) [
    | inl same ↦ (v, lookup-insert k j v rows ∙ rw same, h ((e.same_iff k j).0 same))
    | inr other ↦ (old, lookup-insert k j v rows ∙ (rw other found), holds)
  ]

  pub upsert-Keeps :
      {W : Type 0} (replaces : V → W → Bool) (merge : V → W → V) (create : W → V) (P : V → Type 0)
      (j k : K) (w : W) (rows : HashMap K V)
      → Keeps P j rows
      → (k ≡ j → (v : V) → P v → replaces v w ≡ true → P (merge v w))
      → Keeps P j (upsert replaces merge create k w rows)
  unfolding upsert
  upsert-Keeps replaces merge create P j k w rows kept h = elim (Option-cases (lookup k rows)) [
    | inl missing ↦
        rw (missing, upsert)
          (insert-Keeps P j k (create w) rows kept
            (λ same. let there = ap (λ (t : K). lookup t rows) same ∙ kept.1 in cc))
    | inr (old, there) ↦ elim (Bool-cases (replaces old w)) [
      | inl replaced ↦
          rw (there, upsert, replaced)
            (insert-Keeps P j k (merge old w) rows kept (λ same.
              h same old
                (subst P (some-inj (sym kept.1 ∙ sym (ap (λ (t : K). lookup t rows) same) ∙ there))
                  kept.2)
                replaced))
      | inr kept_row ↦ rw (there, upsert, kept_row) kept
    ]
  ]

  pub lookup-upsert :
      {W : Type 0} (replaces : V → W → Bool) (merge : V → W → V) (create : W → V) (k : K) (w : W)
      (old : V) (rows : HashMap K V)
      → lookup k rows ≡ some old
      → lookup k (upsert replaces merge create k w rows)
        ≡ some (if replaces old w then merge old w else old)
  unfolding upsert
  lookup-upsert replaces merge create k w old rows there = elim (Bool-cases (replaces old w)) [
    | inl replaced ↦
        rw (there, upsert, replaced)
          (lookup-insert k k (merge old w) rows ∙ rw ((e.same_iff k k).1 refl) refl)
    | inr kept_row ↦ rw (there, upsert, kept_row) there
  ]

  -- The rows of the other keys stay.
  pub lookup-upsert_ne :
      {W : Type 0} (replaces : V → W → Bool) (merge : V → W → V) (create : W → V) (j k : K) (w : W)
      (rows : HashMap K V)
      → e.same k j ≡ false
      → lookup j (upsert replaces merge create k w rows) ≡ lookup j rows
  unfolding upsert
  lookup-upsert_ne replaces merge create j k w rows other = elim (Option-cases (lookup k rows)) [
    | inl missing ↦ rw (missing, upsert) (lookup-insert k j (create w) rows ∙ rw other refl)
    | inr (old, there) ↦ elim (Bool-cases (replaces old w)) [
      | inl replaced ↦
          rw (there, upsert, replaced) (lookup-insert k j (merge old w) rows ∙ rw other refl)
      | inr kept_row ↦ rw (there, upsert, kept_row) refl
    ]
  ]

  -- An update that leaves the row of a key leaves what the key finds.
  pub lookup-update_same :
      (f : K → V → V) (j : K) (rows : HashMap K V)
      → ((v : V) → f j v ≡ v)
      → lookup j (update f rows) ≡ lookup j rows
  unfolding update lookup
  lookup-update_same f j [] h = refl
  lookup-update_same f j ((k, v) ∷ rows) h = elim (Bool-cases (e.same k j)) [
    | inl same ↦ rw same (ap some (subst (λ i. f i v ≡ v) (sym ((e.same_iff k j).0 same)) (h v)))
    | inr other ↦ rw other (lookup-update_same f j rows h)
  ]

  pub lookup-update :
      (f : K → V → V) (j : K) (v : V) (rows : HashMap K V)
      → lookup j rows ≡ some v
      → lookup j (update f rows) ≡ some (f j v)
  unfolding update lookup
  lookup-update f j v [] h = cc
  lookup-update f j v ((k, w) ∷ rows) h = elim (Bool-cases (e.same k j)) [
    | inl same ↦ rw same (
        ap (λ (t : V). some (f k t)) (some-inj (rw same at h))
        ∙ ap (λ (t : K). some (f t v)) ((e.same_iff k j).0 same))
    | inr other ↦ rw other (lookup-update f j v rows (rw other at h))
  ]

  pub update-Keeps :
      (P : V → Type 0) (f : K → V → V) (j : K) (rows : HashMap K V)
      → Keeps P j rows
      → ((v : V) → P v → P (f j v))
      → Keeps P j (update f rows)
  update-Keeps P f j rows (old, found, holds) h =
      (f j old, lookup-update f j old rows found, h old holds)

  -- A row that the test keeps stays.
  pub lookup-retain :
      (keep : K → V → Bool) (k : K) (v : V) (rows : HashMap K V)
      → lookup k rows ≡ some v
      → keep k v ≡ true
      → lookup k (retain keep rows) ≡ some v
  unfolding retain lookup
  lookup-retain keep k v [] h kept = cc
  lookup-retain keep k v ((j, w) ∷ rows) h kept = elim (Bool-cases (e.same j k)) [
    | inl same ↦
        let there = some-inj (rw same at h) in
        let here = ap₂ keep ((e.same_iff j k).0 same) there ∙ kept in
        rw (here, lookup, same) (ap some there)
    | inr other ↦
        let later = lookup-retain keep k v rows (rw other at h) kept in
        elim (Bool-cases (keep j w)) [
          | inl b ↦ rw (b, lookup, other) later
          | inr b ↦ rw (b, lookup) later
        ]
  ]

  -- What is found behind a DELETE, the test keeps.
  pub retain-lookup :
      (keep : K → V → Bool) (k : K) (v : V) (rows : HashMap K V)
      → lookup k (retain keep rows) ≡ some v
      → keep k v ≡ true
  unfolding retain lookup
  retain-lookup keep k v [] h = cc
  retain-lookup keep k v ((j, w) ∷ rows) h = elim (Bool-cases (keep j w)) [
    | inl b ↦ elim (Bool-cases (e.same j k)) [
      | inl same ↦
          ap₂ keep (sym ((e.same_iff j k).0 same)) (sym (some-inj (rw (b, lookup, same) at h))) ∙ b
      | inr other ↦ retain-lookup keep k v rows (rw (b, lookup, other) at h)
    ]
    | inr b ↦ retain-lookup keep k v rows (rw (b, lookup) at h)
  ]

  pub retain-Keeps :
      (P : V → Type 0) (keep : K → V → Bool) (k : K) (rows : HashMap K V)
      → Keeps P k rows
      → ((v : V) → P v → keep k v ≡ true)
      → Keeps P k (retain keep rows)
  retain-Keeps P keep k rows (v, there, holds) h =
      (v, lookup-retain keep k v rows there (h v holds), holds)

  pub retain-none :
      (keep : K → V → Bool) (k : K) (rows : HashMap K V)
      → lookup k rows ≡ none
      → lookup k (retain keep rows) ≡ none
  unfolding retain lookup
  retain-none keep k [] h = refl
  retain-none keep k ((j, w) ∷ rows) h = elim (Bool-cases (e.same j k)) [
    | inl same ↦ cc (rw same at h)
    | inr other ↦
        let later = retain-none keep k rows (rw other at h) in
        elim (Bool-cases (keep j w)) [
          | inl b ↦ rw (b, lookup, other) later
          | inr b ↦ rw (b, lookup) later
        ]
  ]
