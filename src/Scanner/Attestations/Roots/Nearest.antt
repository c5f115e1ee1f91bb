-- ===== src/Scanner/Attestations/Roots/Nearest.antt =====
-- The root that a search back finds (src/scanner/attestations/sparse.rs).
use dabeacon_indexer.Prelude.{
  ℕ, zero, suc, ◌+◌, ◌-◌, ◌*◌, ◌≤◌, ◌<◌, ◌==◌, ==_iff, Option, none, some, ◌≡◌, sym, ap, ◌∙◌, subst,
  arith, Bool-cases, inl, inr,
}
use dabeacon_indexer.Error.{Result, ok, ok_or-ok, >>=-eq-ok, beacon_data_unavailable}
use dabeacon_indexer.Chain.{ChainSpec}
use dabeacon_indexer.Beacon.Types.{BlockRoot}
use dabeacon_indexer.Scanner.Attestations.Roots.{search_back, root_at_or_before, answered_back}

module _ (get_block_root : ℕ → Result (Option BlockRoot)) where
  -- The root is that of the block at `s`, within `count` slots down from `slot`, and the node has no
  -- block at a slot from behind `s` through `slot`.
  abbrev pub IsNearest : ℕ → ℕ → BlockRoot → Type 0
  IsNearest count slot root =
      (s : ℕ) × (s ≤ slot)
      × (slot < s + count)
      × (get_block_root s ≡ ok (some root))
      × ((t : ℕ) → s < t → t ≤ slot → get_block_root t ≡ ok none)

  answered_back-IsNearest :
      (count prior : ℕ) (earlier : Result (Option BlockRoot)) (answer : Option BlockRoot)
      (root : BlockRoot)
      → count ≤ prior
      → get_block_root prior ≡ ok answer
      → answered_back earlier answer ≡ ok (some root)
      → (earlier ≡ ok (some root) → IsNearest count (prior - 1) root)
      → IsNearest (suc count) prior root
  answered_back-IsNearest zero prior earlier none root fits there h ih =
      let (s, before, near, found, gap) = ih h in absurd (omega arith)
  answered_back-IsNearest (suc count) prior earlier none root fits there h ih =
      let (s, before, near, found, gap) = ih h in
      (
        s,
        omega arith,
        omega arith,
        found,
        λ t a b. elim (Bool-cases (t == prior)) [
          | inl e ↦ subst (λ u. get_block_root u ≡ ok none) (sym ((==_iff t prior).0 e)) there
          | inr e ↦ gap t a (ground arith)
        ],
      )
  answered_back-IsNearest count prior earlier (some found) root fits there h ih =
      (prior, omega arith, omega arith, there ∙ h, λ t a b. absurd (omega arith))

  pub search_back-IsNearest :
      (count prior : ℕ) (root : BlockRoot)
      → count ≤ prior + 1
      → search_back get_block_root count prior ≡ ok (some root)
      → IsNearest count prior root
  unfolding search_back
  search_back-IsNearest zero prior root fits h = cc
  search_back-IsNearest (suc count) prior root fits h =
      let answer = >>=-eq-ok (get_block_root prior) _ h in
      answered_back-IsNearest count prior (search_back get_block_root count (prior - 1)) answer.0
        root (omega arith) answer.1 answer.2
        (search_back-IsNearest count (prior - 1) root (omega arith))

  -- The root for a slot is that of the last block at or before it, no further back than two epochs.
  pub root_at_or_before-IsNearest :
      (spec : ChainSpec) (slot : ℕ) (root : BlockRoot)
      → root_at_or_before spec get_block_root slot ≡ ok root
      → IsNearest (spec.slots_per_epoch * 2 + 1) slot root
  unfolding root_at_or_before
  root_at_or_before-IsNearest spec slot root h =
      let count = slot - (slot - spec.slots_per_epoch * 2) + 1 in
      let found = >>=-eq-ok (search_back get_block_root count slot) _ h in
      let (s, before, near, there, gap) =
        search_back-IsNearest count slot root (omega arith)
          (found.1 ∙ ap ok (ok_or-ok beacon_data_unavailable found.0 found.2)) in
      (s, before, omega arith, there, gap)
