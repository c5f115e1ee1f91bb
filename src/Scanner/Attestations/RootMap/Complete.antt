-- ===== src/Scanner/Attestations/RootMap/Complete.antt =====
-- `build_block_root_map` of src/scanner/attestations/dense.rs has a root for every slot of the epoch.
use dabeacon_indexer.Prelude.{
  ℕ, zero, suc, ◌+◌, ◌-◌, ◌≤◌, ◌<◌, ◌==◌, ==_iff, ltb, Bool, true, false, ◌&&◌, not, [], map, range,
  Option, none, some, HashMap, lookup, insert, lookup-insert, contains_key, nat_key, ◌≡◌, refl, sym,
  ap, ◌∙◌, subst, arith, Bool-cases, Option-cases, inl, inr,
}
use dabeacon_indexer.Error.{
  Result, ok, ok_or, ok_or-ok, >>=-eq-ok, ok-injective, inconsistent_beacon_data,
}
use dabeacon_indexer.Chain.{ChainSpec}
use dabeacon_indexer.Beacon.Types.{BlockRoot, SignedBeaconBlock}
use dabeacon_indexer.Scanner.Attestations.Roots.Nearest.{search_back-IsNearest}
use dabeacon_indexer.Scanner.Attestations.RootMap.{
  Blocks, fetch_roots, root_before, build_block_root_map,
}
use dabeacon_indexer.Scanner.Attestations.RootMap.Carry.{IsLast, IsBehind, carry_roots-IsCarried}

module _ (spec : ChainSpec) (get_block_root : ℕ → Result (Option BlockRoot))
    (block_at : ℕ → Option SignedBeaconBlock) where
  abbrev pub blocks_from : ℕ → ℕ → Blocks
  blocks_from start count = map (λ (s : ℕ). (s, block_at s)) (range start count)

  -- The fetched roots of `count` slots are what the node answers, and no other slot has one.
  abbrev IsFetched : ℕ → ℕ → HashMap ℕ BlockRoot → HashMap ℕ BlockRoot → Type 0
  IsFetched start count roots fetched =
      ((q : ℕ) → q < start → lookup q fetched ≡ lookup q roots)
      × ((q : ℕ) → start ≤ q → q < start + count → get_block_root q ≡ ok (lookup q fetched))

  next-IsFetched :
      (start count : ℕ) (roots inserted fetched : HashMap ℕ BlockRoot)
      → ((q : ℕ) → q < start → lookup q inserted ≡ lookup q roots)
      → get_block_root start ≡ ok (lookup start inserted)
      → IsFetched (start + 1) count inserted fetched
      → IsFetched start (suc count) roots fetched
  next-IsFetched start count roots inserted fetched same here (before, behind) = (
    λ q a. before q (omega arith) ∙ same q a,
    λ q a b. elim (Bool-cases (q == start)) [
      | inl e ↦
          subst (λ k. get_block_root k ≡ ok (lookup k fetched)) (sym ((==_iff q start).0 e))
            (here ∙ ap ok (sym (before start (omega arith))))
      | inr e ↦ behind q (ground arith) (omega arith)
    ],
  )

  module _ (without : (s : ℕ) → block_at s ≡ none → get_block_root s ≡ ok none) where
    fetch_roots-IsFetched :
        (count start : ℕ) (roots fetched : HashMap ℕ BlockRoot)
        → ((q : ℕ) → start ≤ q → lookup q roots ≡ none)
        → fetch_roots spec get_block_root roots (blocks_from start count) ≡ ok fetched
        → IsFetched start count roots fetched
    unfolding fetch_roots
    fetch_roots-IsFetched zero start roots fetched fresh h =
        (λ q a. ap (lookup q) (sym (ok-injective h)), λ q a b. absurd (omega arith))
    fetch_roots-IsFetched (suc count) start roots fetched fresh h =
        elim (Option-cases (block_at start)) [
          | inl missing ↦
              next-IsFetched start count roots roots fetched (λ q a. refl)
                (without start missing ∙ ap ok (sym (fresh start (omega arith))))
                (fetch_roots-IsFetched count (start + 1) roots fetched
                  (λ q a. fresh q (omega arith)) (rw (missing, fetch_roots) at h))
          | inr (block, there) ↦
              let (answer, asked, more) =
                >>=-eq-ok (get_block_root start) _ (rw (there, fetch_roots) at h) in
              let (root, has, rest) = >>=-eq-ok (ok_or inconsistent_beacon_data answer) _ more in
              let found = ok_or-ok inconsistent_beacon_data answer has in
              let kept = λ (q : ℕ). lookup-insert start q root roots in
              next-IsFetched start count roots (insert start root roots) fetched
                (λ q a. kept q ∙ rw (other start q (omega arith)) refl)
                (asked ∙ ap ok (found ∙ sym (kept start ∙ rw (same start) refl)))
                (fetch_roots-IsFetched count (start + 1) (insert start root roots) fetched
                  (λ q a. kept q ∙ (rw (later start q a) (fresh q (omega arith)))) rest)
        ]
      where
        other : (a b : ℕ) → b < a → (a == b) ≡ false
        other a b h = ground arith

        later : (a b : ℕ) → a + 1 ≤ b → (a == b) ≡ false
        later a b h = ground arith

        same : (a : ℕ) → (a == a) ≡ true
        same a = ground arith

    root_before-IsBehind :
        (start : ℕ) (roots : HashMap ℕ BlockRoot) (last_known : Option BlockRoot)
        → root_before spec get_block_root start roots ≡ ok last_known
        → IsBehind get_block_root start last_known
    unfolding root_before
    root_before-IsBehind start roots none h = tt
    root_before-IsBehind start roots (some root) h =
        elim (Bool-cases (ltb 0 start && not (contains_key start roots))) [
          | inl e ↦
              let (s, before, near, there, gap) =
                search_back-IsNearest get_block_root (start - (start - spec.slots_per_epoch))
                  (start - 1) root (omega arith) (rw e at h) in
              (
                s,
                positive (not (contains_key start roots)) e before,
                there,
                λ t a b. gap t a (omega arith),
              )
          | inr e ↦ cc (rw e at h)
        ]
      where
        positive : {s : ℕ} (b : Bool) → (ltb 0 start && b) ≡ true → s ≤ start - 1 → s < start
        positive b e h = ground arith

    -- Where the node knows no root for a slot without a block, and the map is built, every slot of
    -- the epoch has in it the root of the last block at or before the slot.
    pub build_block_root_map-IsLast :
        (start : ℕ) (roots : HashMap ℕ BlockRoot)
        → build_block_root_map spec get_block_root start (blocks_from start spec.slots_per_epoch)
          ≡ ok roots
        → (slot : ℕ) → start ≤ slot
        → slot < start + spec.slots_per_epoch
        → (root : BlockRoot) × (lookup slot roots ≡ some root) × IsLast get_block_root slot root
    unfolding build_block_root_map lookup
    build_block_root_map-IsLast start roots h =
        let (fetched, first_done, more) =
          >>=-eq-ok (fetch_roots spec get_block_root [] (blocks_from start spec.slots_per_epoch)) _
            h in
        let (last_known, searched, last_done) =
          >>=-eq-ok (root_before spec get_block_root start fetched) _ more in
        let known =
          fetch_roots-IsFetched spec.slots_per_epoch start [] fetched (λ q a. refl) first_done in
        (carry_roots-IsCarried get_block_root spec.slots_per_epoch start last_known fetched roots
          known.1 (root_before-IsBehind start fetched last_known searched) last_done).1
