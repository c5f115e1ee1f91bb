-- ===== src/Scanner/Attestations/RootMap/Carry.antt =====
-- The loop of `build_block_root_map` (src/scanner/attestations/dense.rs) that carries roots forward.
use dabeacon_indexer.Prelude.{
  ℕ, zero, suc, ◌+◌, ◌≤◌, ◌<◌, ◌==◌, ==_iff, if◌then◌else◌, false, Option, none, some, or_else,
  HashMap, lookup, lookup-insert, contains_key, nat_key, ◌≡◌, refl, sym, ap, ◌∙◌, subst, arith,
  Bool-cases, Option-cases, inl, inr,
}
use dabeacon_indexer.Error.{
  Result, ok, ok_or, ok_or-ok, >>=-eq-ok, ok-injective, inconsistent_beacon_data,
}
use dabeacon_indexer.Beacon.Types.{BlockRoot}
use dabeacon_indexer.Scanner.Attestations.RootMap.{fill, carry_roots}

lookup-fill :
    (slot q : ℕ) (root : BlockRoot) (roots : HashMap ℕ BlockRoot)
    → lookup q (fill slot root roots)
      ≡ (if slot == q then or_else (lookup slot roots) (some root) else lookup q roots)
unfolding contains_key
lookup-fill slot q root roots = elim (Option-cases (lookup slot roots)) [
  | inl missing ↦ rw (missing, contains_key) (lookup-insert slot q root roots)
  | inr (own, there) ↦ elim (Bool-cases (slot == q)) [
    | inl e ↦
        rw (there, contains_key, e)
          (ap (λ (k : ℕ). lookup k roots) (sym ((==_iff slot q).0 e)) ∙ there)
    | inr e ↦ rw (there, contains_key, e) refl
  ]
]

module _ (get_block_root : ℕ → Result (Option BlockRoot)) where
  -- The root is that of the last block at or before the slot.
  abbrev pub IsLast : ℕ → BlockRoot → Type 0
  IsLast slot root =
      (s : ℕ) × (s ≤ slot)
      × (get_block_root s ≡ ok (some root))
      × ((t : ℕ) → s < t → t ≤ slot → get_block_root t ≡ ok none)

  -- The carried root is that of the last block before the slot.
  abbrev pub IsBehind : ℕ → Option BlockRoot → Type 0
  IsBehind slot none = Unit
  IsBehind slot (some root) =
      (s : ℕ) × (s < slot)
      × (get_block_root s ≡ ok (some root))
      × ((t : ℕ) → s < t → t < slot → get_block_root t ≡ ok none)

  IsLast-IsBehind :
      (slot : ℕ) (root : BlockRoot) → IsLast slot root → IsBehind (slot + 1) (some root)
  IsLast-IsBehind slot root (s, before, there, gap) =
      (s, omega arith, there, λ t a b. gap t a (omega arith))

  carried-IsLast :
      (slot : ℕ) (own last_known : Option BlockRoot) (root : BlockRoot)
      → get_block_root slot ≡ ok own
      → IsBehind slot last_known
      → or_else own last_known ≡ some root
      → IsLast slot root
  carried-IsLast slot (some own) last_known root there behind h =
      (slot, omega arith, there ∙ ap ok h, λ t a b. absurd (omega arith))
  carried-IsLast slot none none root there behind h = cc
  carried-IsLast slot none (some r) root there (s, before, found, gap) h = (
    s,
    omega arith,
    found ∙ ap ok h,
    λ t a b. elim (Bool-cases (t == slot)) [
      | inl e ↦ subst (λ u. get_block_root u ≡ ok none) (sym ((==_iff t slot).0 e)) there
      | inr e ↦ gap t a (ground arith)
    ],
  )

  -- The lookups behind the loop: the slots before it are as they were, the others have their root.
  abbrev pub IsCarried : ℕ → ℕ → HashMap ℕ BlockRoot → HashMap ℕ BlockRoot → Type 0
  IsCarried slot count roots filled =
      ((q : ℕ) → q < slot → lookup q filled ≡ lookup q roots)
      × ((q : ℕ)
          → slot ≤ q
          → q < slot + count
          → (root : BlockRoot) × (lookup q filled ≡ some root) × IsLast q root)

  step-IsCarried :
      (slot count : ℕ) (own last_known : Option BlockRoot) (root : BlockRoot)
      (roots filled : HashMap ℕ BlockRoot)
      → lookup slot roots ≡ own
      → or_else own last_known ≡ some root
      → IsLast slot root
      → IsCarried (slot + 1) count (fill slot root roots) filled
      → IsCarried slot (suc count) roots filled
  step-IsCarried slot count own last_known root roots filled e chosen here (before, behind) = (
    λ q a. before q (omega arith) ∙ (lookup-fill slot q root roots ∙ rw (other slot q a) refl),
    λ q a b. elim (Bool-cases (q == slot)) [
      | inl same ↦
          subst (λ k. (r : BlockRoot) × (lookup k filled ≡ some r) × IsLast k r)
            (sym ((==_iff q slot).0 same))
            (root, before slot (omega arith) ∙ (lookup-fill slot slot root roots ∙ kept), here)
      | inr different ↦ behind q (ground arith) (omega arith)
    ],
  )
    where
      other : (a b : ℕ) → b < a → (a == b) ≡ false
      other a b h = ground arith

      kept :
          (if slot == slot then or_else (lookup slot roots) (some root) else lookup slot roots)
          ≡ some root
      kept = ground (arith, e, chosen)

  pub carry_roots-IsCarried :
      (count slot : ℕ) (last_known : Option BlockRoot) (roots filled : HashMap ℕ BlockRoot)
      → ((q : ℕ) → slot ≤ q → q < slot + count → get_block_root q ≡ ok (lookup q roots))
      → IsBehind slot last_known
      → carry_roots slot count last_known roots ≡ ok filled
      → IsCarried slot count roots filled
  unfolding carry_roots
  carry_roots-IsCarried zero slot last_known roots filled known behind h =
      (λ q a. ap (lookup q) (sym (ok-injective h)), λ q a b. absurd (omega arith))
  carry_roots-IsCarried (suc count) slot last_known roots filled known behind h =
      let (root, chosen, rest) =
        >>=-eq-ok (ok_or inconsistent_beacon_data (or_else (lookup slot roots) last_known)) _ h in
      let picked =
        ok_or-ok inconsistent_beacon_data (or_else (lookup slot roots) last_known) chosen in
      let here =
        carried-IsLast slot (lookup slot roots) last_known root
          (known slot (omega arith) (omega arith)) behind picked in
      step-IsCarried slot count (lookup slot roots) last_known root roots filled refl picked here (
        carry_roots-IsCarried count (slot + 1) (some root) (fill slot root roots) filled
          (λ q a b.
            known q (omega arith) (omega arith)
            ∙ ap ok (sym (lookup-fill slot q root roots ∙ rw (other slot q a) refl)))
          (IsLast-IsBehind slot root here) rest)
    where
      other : (a b : ℕ) → a + 1 ≤ b → (a == b) ≡ false
      other a b h = ground arith
