-- ===== src/Live/Finalization.antt =====
-- src/live/finalization.rs: which collected blocks a finalized checkpoint confirms.
pub mod Ancestry
use dabeacon_indexer.Prelude.{
  ℕ, zero, suc, ◌+◌, leb, max, if◌then◌else◌, Bool, true, false, String, str_eq, eq_iff, List, [],
  ◌∷◌, Option, none, some, Key, HashMap, lookup, insert, ◌↔◌, ◌≡◌,
}
use dabeacon_indexer.Beacon.Types.{BlockRoot}

-- A row of `live_blocks`: slot, root and parent root.
abbrev pub BlockRow : Type 0
BlockRow = ℕ × BlockRoot × BlockRoot

instance abbrev pub root_key : Key BlockRoot
root_key = record { same = str_eq; same_iff = eq_iff }

-- From a root to its slot and its parent.
abbrev pub ByRoot : Type 0
ByRoot = HashMap BlockRoot (ℕ × BlockRoot)

insert_rows : ByRoot → List BlockRow → ByRoot
insert_rows by_root [] = by_root
insert_rows by_root ((slot, root, parent) ∷ rows) =
    insert_rows (insert root (slot, parent) by_root) rows

-- `collect` into a `HashMap`: of two rows with one root the later one stays.
unfoldable pub index_by_root : List BlockRow → ByRoot
unfolding insert_rows
index_by_root rows = insert_rows [] rows

-- `child_slot.is_some_and(|child| slot >= child)`.
abbrev pub not_before : ℕ → Option ℕ → Bool
not_before slot none = false
not_before slot (some child) = leb child slot

prepend : ℕ × BlockRoot → Option (List (ℕ × BlockRoot)) → Option (List (ℕ × BlockRoot))
prepend entry none = none
prepend entry (some rest) = some (entry ∷ rest)

-- The `while let` loop on fuel; `none` means that the fuel ran out.
unfoldable pub walk : ℕ → ByRoot → BlockRoot → Option ℕ → Option (List (ℕ × BlockRoot))
unfolding prepend
walk zero by_root cursor child_slot = none
walk (suc fuel) by_root cursor child_slot = elim (lookup cursor by_root) [
  | none ↦ some []
  | some (slot, parent) ↦ elim (not_before slot child_slot) [
    | true ↦ some []
    | false ↦ prepend (slot, cursor) (walk fuel by_root parent (some slot))
  ]
]

max_slot : List BlockRow → ℕ
max_slot [] = 0
max_slot ((slot, root, parent) ∷ rows) = max slot (max_slot rows)

-- The slots fall, so a round for each slot and one to stop are enough.
unfoldable pub confirmed_ancestry : List BlockRow → BlockRoot → Option (List (ℕ × BlockRoot))
unfolding index_by_root max_slot
confirmed_ancestry blocks root = walk (max_slot blocks + 2) (index_by_root blocks) root none
