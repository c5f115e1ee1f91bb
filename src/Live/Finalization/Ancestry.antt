-- ===== src/Live/Finalization/Ancestry.antt =====
-- `confirmed_ancestry` of src/live/finalization.rs: it ends, and confirms one parent chain.
use dabeacon_indexer.Prelude.{
  ℕ, zero, suc, ◌+◌, ◌≤◌, ◌<◌, leb-false→lt, true, false, str_eq, List, [], ◌∷◌, Option, none, some,
  some-inj, lookup, insert, lookup-insert, ◌≡◌, refl, sym, ap, ◌∙◌, ◌⊎◌, inl, inr, subst, arith,
  Option-cases, Bool-cases,
}
use dabeacon_indexer.Beacon.Types.{BlockRoot}
use dabeacon_indexer.Live.Finalization.{
  BlockRow, ByRoot, root_key, insert_rows, index_by_root, not_before, prepend, walk, max_slot,
  confirmed_ancestry,
}

-- The blocks of a parent chain from `cursor` down, each stored and each below its child, as far as
-- the stored blocks reach.
abbrev pub IsAncestry : ByRoot → BlockRoot → Option ℕ → List (ℕ × BlockRoot) → Type 0
IsAncestry by_root cursor child [] =
    (lookup cursor by_root ≡ none)
    ⊎ ((slot : ℕ) × (parent : BlockRoot) × (lookup cursor by_root ≡ some (slot, parent))
        × (not_before slot child ≡ true))
IsAncestry by_root cursor child ((slot, root) ∷ rest) =
    (root ≡ cursor)
    × ((parent : BlockRoot) × (lookup cursor by_root ≡ some (slot, parent))
        × (not_before slot child ≡ false)
        × IsAncestry by_root parent (some slot) rest)

abbrev IsWalk : ByRoot → BlockRoot → Option ℕ → Option (List (ℕ × BlockRoot)) → Type 0
IsWalk by_root cursor child o =
    (blocks : List (ℕ × BlockRoot)) × (o ≡ some blocks) × IsAncestry by_root cursor child blocks

-- The rounds that the loop may still need.
abbrev rounds : ℕ → Option ℕ → ℕ
rounds top none = top + 1
rounds top (some child) = child

IsBounded : ByRoot → ℕ → Type 0
IsBounded by_root top =
    (root : BlockRoot) (slot : ℕ) (parent : BlockRoot)
    → lookup root by_root ≡ some (slot, parent)
    → slot ≤ top

module _ (by_root : ByRoot) (cursor : BlockRoot) (child : Option ℕ) (fuel : ℕ) where
  walk-missing : lookup cursor by_root ≡ none → walk (suc fuel) by_root cursor child ≡ some []
  unfolding walk
  walk-missing missing = rw (missing, walk)

  walk-stops :
      (slot : ℕ) (parent : BlockRoot)
      → lookup cursor by_root ≡ some (slot, parent)
      → not_before slot child ≡ true
      → walk (suc fuel) by_root cursor child ≡ some []
  unfolding walk
  walk-stops slot parent found late = rw (found, walk) (rw (late, walk))

  walk-goes_on :
      (slot : ℕ) (parent : BlockRoot)
      → lookup cursor by_root ≡ some (slot, parent)
      → not_before slot child ≡ false
      → walk (suc fuel) by_root cursor child
        ≡ prepend (slot, cursor) (walk fuel by_root parent (some slot))
  unfolding walk
  walk-goes_on slot parent found early = rw (found, walk) (rw (early, walk))

fewer_rounds :
    (top slot : ℕ) (child : Option ℕ)
    → slot ≤ top
    → not_before slot child ≡ false
    → slot < rounds top child
fewer_rounds top slot none within early = omega arith
fewer_rounds top slot (some c) within early = leb-false→lt c slot early

walk-IsWalk :
    (by_root : ByRoot) (top fuel : ℕ) (cursor : BlockRoot) (child : Option ℕ)
    → IsBounded by_root top
    → rounds top child < fuel
    → IsWalk by_root cursor child (walk fuel by_root cursor child)
unfolding prepend IsBounded
walk-IsWalk by_root top zero cursor child bounded enough = absurd (omega arith)
walk-IsWalk by_root top (suc fuel) cursor child bounded enough =
    elim (Option-cases (lookup cursor by_root)) [
      | inl missing ↦ ([], walk-missing by_root cursor child fuel missing, inl missing)
      | inr ((slot, parent), found) ↦ elim (Bool-cases (not_before slot child)) [
        | inl late ↦ (
          [],
          walk-stops by_root cursor child fuel slot parent found late,
          inr (slot, parent, found, late),
        )
        | inr early ↦
            let fewer = fewer_rounds top slot child (bounded cursor slot parent found) early in
            let rest = walk-IsWalk by_root top fuel parent (some slot) bounded (omega arith) in
            (
              (slot, cursor) ∷ rest.0,
              walk-goes_on by_root cursor child fuel slot parent found early
                  ∙ ap (prepend (slot, cursor)) rest.1,
              (refl, (parent, found, early, rest.2)),
            )
      ]
    ]

insert-IsBounded :
    (by_root : ByRoot) (top slot : ℕ) (root parent : BlockRoot)
    → slot ≤ top
    → IsBounded by_root top
    → IsBounded (insert root (slot, parent) by_root) top
unfolding IsBounded
insert-IsBounded by_root top slot root parent within bounded r s p found =
    elim (Bool-cases (str_eq root r)) [
      | inl e ↦
          let e' : some (slot, parent) ≡ some (s, p) =
            sym (rw e at (lookup-insert root r (slot, parent) by_root)) ∙ found in
          subst (λ (q : ℕ × BlockRoot). q.0 ≤ top) (some-inj e') within
      | inr e ↦ bounded r s p (sym (rw e at (lookup-insert root r (slot, parent) by_root)) ∙ found)
    ]

insert_rows-IsBounded :
    (rows : List BlockRow) (by_root : ByRoot) (top : ℕ)
    → max_slot rows ≤ top
    → IsBounded by_root top
    → IsBounded (insert_rows by_root rows) top
unfolding insert_rows max_slot
insert_rows-IsBounded [] by_root top within bounded = bounded
insert_rows-IsBounded ((slot, root, parent) ∷ rows) by_root top within bounded =
    insert_rows-IsBounded rows _ top (omega arith)
      (insert-IsBounded by_root top slot root parent (omega arith) bounded)

-- The walk from the finalized root ends, and what it confirms is one unbroken parent chain from
-- that root down: each block is stored, its slot is below its child's, and the next one is its
-- parent; it stops only where the parent is not stored or does not lie below its child.
pub confirmed_ancestry-IsAncestry :
    (blocks : List BlockRow) (root : BlockRoot)
    → (confirmed : List (ℕ × BlockRoot)) × (confirmed_ancestry blocks root ≡ some confirmed)
      × IsAncestry (index_by_root blocks) root none confirmed
unfolding confirmed_ancestry index_by_root
confirmed_ancestry-IsAncestry blocks root =
    walk-IsWalk (insert_rows [] blocks) (max_slot blocks) (max_slot blocks + 2) root none
      (insert_rows-IsBounded blocks [] (max_slot blocks) (omega arith) empty) (omega arith)
  where
    empty : IsBounded [] (max_slot blocks)
    empty = unfold IsBounded lookup in (λ r s p found. cc)
