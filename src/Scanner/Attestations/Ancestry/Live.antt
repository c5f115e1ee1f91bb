-- ===== src/Scanner/Attestations/Ancestry/Live.antt =====
-- `live_vote_context` (src/scanner/attestations/mod.rs) compares votes with the canonical roots.
use dabeacon_indexer.Prelude.{
  ℕ, zero, suc, ◌+◌, ◌-◌, ◌≤◌, ◌<◌, leb, ltb, leb→le, ltb→lt, ltb-false→le, leb-false→lt, All-imp,
  some-inj, ==_iff, ◌==◌, min, Option, none, some, [], ◌∷◌, HashMap, lookup, insert, nat_key,
  lookup-insert, All, ◌≡◌, refl, sym, ap, ◌∙◌, subst, arith, Option-cases, Bool-cases, inl, inr,
}
use native.Mathlib.Nat.{le_trans}
use dabeacon_indexer.Error.{ok, ok_or, >>=-eq-ok, ok_or-ok, ok-injective, inconsistent_beacon_data}
use dabeacon_indexer.Chain.{ChainSpec, epoch_start_slot, wrap64}
use dabeacon_indexer.Beacon.Types.{BlockRoot}
use dabeacon_indexer.Scanner.Attestations.{VoteContext}
use dabeacon_indexer.Scanner.Attestations.Ancestry.{
  keep_later, latest, carried, carry_forward, live_vote_context, IsLatest, IsMap,
}

All-lookup :
    (P : ℕ × BlockRoot → Type 0) (m : HashMap ℕ BlockRoot) (k : ℕ) (v : BlockRoot)
    → All P m
    → lookup k m ≡ some v
    → P (k, v)
unfolding lookup
All-lookup P [] k v h e = cc
All-lookup P ((j, w) ∷ m) k v h e = elim (Bool-cases (j == k)) [
  | inl same ↦
      subst P
        (ap (λ (t : ℕ). (t, w)) ((==_iff j k).0 same)
          ∙ ap (λ (r : BlockRoot). (k, r)) (ground arith))
        h.0
  | inr other ↦ All-lookup P m k v h.1 (rw other at e)
]

-- What `max_by_key` finds is an entry within the bound, and no entry within it is later.
abbrev IsBest : ℕ → HashMap ℕ BlockRoot → Option (ℕ × BlockRoot) → Type 0
IsBest bound m none = All (λ entry. bound < entry.0) m
IsBest bound m (some (s, r)) = (s ≤ bound) × All (λ entry. entry.0 ≤ bound → entry.0 ≤ s) m

keep_later-IsBest :
    (bound j : ℕ) (w : BlockRoot) (m : HashMap ℕ BlockRoot) (o : Option (ℕ × BlockRoot))
    → IsBest bound m o
    → IsBest bound ((j, w) ∷ m) (keep_later bound (j, w) o)
unfolding keep_later
keep_later-IsBest bound j w m none h = elim (Bool-cases (leb j bound)) [
  | inl e ↦ rw e (
    leb→le j bound e,
    (λ _. omega arith, All-imp m (λ entry later within. absurd (omega arith)) h),
  )
  | inr e ↦ rw e (omega (arith, leb-false→lt j bound e), h)
]
keep_later-IsBest bound j w m (some (best, root)) h = elim (Bool-cases (leb j bound)) [
  | inl e ↦ elim (Bool-cases (ltb best j)) [
    | inl f ↦
        rw (e, f)
          (
            leb→le j bound e,
            (
              λ _. omega arith,
              All-imp m (λ entry old within. le_trans (old within) (omega (arith, ltb→lt best j f)))
                  h.1,
            ),
          )
    | inr f ↦ rw (e, f) (h.0, (λ _. ltb-false→le best j f, h.1))
  ]
  | inr e ↦ rw e (h.0, (λ within. absurd (omega (arith, leb-false→lt j bound e)), h.1))
]

latest-IsBest : (bound : ℕ) (m : HashMap ℕ BlockRoot) → IsBest bound m (latest bound m)
unfolding latest
latest-IsBest bound [] = tt
latest-IsBest bound ((j, w) ∷ m) =
    keep_later-IsBest bound j w m (latest bound m) (latest-IsBest bound m)

keep_later-Holds :
    (P : ℕ × BlockRoot → Type 0) (bound : ℕ) (e : ℕ × BlockRoot) (o : Option (ℕ × BlockRoot))
    {p : ℕ × BlockRoot}
    → P e
    → ((q : ℕ × BlockRoot) → o ≡ some q → P q)
    → keep_later bound e o ≡ some p
    → P p
unfolding keep_later
keep_later-Holds P bound (j, w) none here there h = elim (Bool-cases (leb j bound)) [
  | inl e ↦ subst P (some-inj (rw e at h)) here
  | inr e ↦ cc (rw e at h)
]
keep_later-Holds P bound (j, w) (some (best, root)) here there h = elim (Bool-cases (leb j bound)) [
  | inl e ↦ elim (Bool-cases (ltb best j)) [
    | inl f ↦ subst P (some-inj (rw (e, f) at h)) here
    | inr f ↦ subst P (some-inj (rw (e, f) at h)) (there (best, root) refl)
  ]
  | inr e ↦ subst P (some-inj (rw e at h)) (there (best, root) refl)
]

latest-Holds :
    (P : ℕ × BlockRoot → Type 0) (bound : ℕ) (m : HashMap ℕ BlockRoot) (p : ℕ × BlockRoot)
    → All P m
    → latest bound m ≡ some p
    → P p
unfolding latest
latest-Holds P bound [] p h e = cc
latest-Holds P bound (entry ∷ m) p h e =
    keep_later-Holds P bound entry (latest bound m) h.0 (λ q f. latest-Holds P bound m q h.1 f) e

latest-IsLatest :
    (roots : HashMap ℕ BlockRoot) (bound s : ℕ) (r : BlockRoot)
    → IsMap roots
    → latest bound roots ≡ some (s, r)
    → IsLatest (λ t. lookup t roots) bound r
latest-IsLatest roots bound s r distinct e =
    let best = subst (IsBest bound roots) e (latest-IsBest bound roots) in
    (
      s,
      best.0,
      latest-Holds (λ entry. lookup entry.0 roots ≡ some entry.1) bound roots (s, r) distinct e,
      λ t after within. elim (Option-cases (lookup t roots)) [
        | inl missing ↦ missing
        | inr (x, found) ↦ absurd (
            omega (
              arith,
              All-lookup (λ entry. entry.0 ≤ bound → entry.0 ≤ s) roots t x best.1 found within,
            ))
      ],
    )

-- At the loop's head the root in hand is that of the last block before `slot`, or at it.
abbrev IsInHand : (ℕ → Option BlockRoot) → ℕ → BlockRoot → Type 0
IsInHand root_at slot root =
    (s : ℕ) × (s ≤ slot) × (root_at s ≡ some root) × ((t : ℕ) → s < t → t < slot → root_at t ≡ none)

carried-IsLatest :
    (root_at : ℕ → Option BlockRoot) (slot : ℕ) (previous : BlockRoot)
    → IsInHand root_at slot previous
    → IsLatest root_at slot (carried previous (root_at slot))
carried-IsLatest root_at slot previous (s, before, root, gap) = elim (Option-cases (root_at slot)) [
  | inl skipped ↦ rw skipped (
    s,
    before,
    root,
    λ t a b. elim (Bool-cases (t == slot)) [
      | inl e ↦ subst (λ k. root_at k ≡ none) (sym ((==_iff t slot).0 e)) skipped
      | inr e ↦ gap t a (ground arith)
    ],
  )
  | inr (x, there) ↦ rw there (slot, omega arith, there, λ t a b. absurd (omega arith))
]

module _ (roots : HashMap ℕ BlockRoot) where
  root_at : ℕ → Option BlockRoot
  root_at slot = lookup slot roots

  carry_forward-before :
      (slot count : ℕ) (previous : BlockRoot) (out : HashMap ℕ BlockRoot) (q : ℕ)
      → q < slot
      → lookup q (carry_forward roots slot count previous out) ≡ lookup q out
  unfolding carry_forward
  carry_forward-before slot zero previous out q h = refl
  carry_forward-before slot (suc count) previous out q h =
      let here = carried previous (lookup slot roots) in
      carry_forward-before (slot + 1) count here (insert slot here out) q (omega arith)
      ∙ (lookup-insert slot q here out ∙ ground arith)

  -- Every slot of the loop gets the root of the last block at or before it.
  carry_forward-IsLatest :
      (slot count : ℕ) (previous : BlockRoot) (out : HashMap ℕ BlockRoot) (q : ℕ)
      → IsInHand root_at slot previous
      → slot ≤ q
      → q < slot + count
      → (r : BlockRoot) × (lookup q (carry_forward roots slot count previous out) ≡ some r)
        × IsLatest root_at q r
  unfolding carry_forward root_at
  carry_forward-IsLatest slot zero previous out q h from below = absurd (omega arith)
  carry_forward-IsLatest slot (suc count) previous out q h from below =
      let here = carried previous (lookup slot roots) in
      let correct = carried-IsLatest root_at slot previous h in
      elim (Bool-cases (slot == q)) [
        | inl e ↦ (
          here,
          carry_forward-before (slot + 1) count here (insert slot here out) q
                (omega (arith, (==_iff slot q).0 e))
              ∙ (lookup-insert slot q here out ∙ rw e refl),
          subst (λ k. IsLatest root_at k here) ((==_iff slot q).0 e) correct,
        )
        | inr e ↦
            carry_forward-IsLatest (slot + 1) count here (insert slot here out) q
              (correct.0, omega (arith, correct.1), correct.2, λ t a b. correct.3 t a (omega arith))
              (ground arith) (omega arith)
      ]

-- Where the live scan builds a vote context from the resolved ancestry, every slot of the epoch
-- before the including block gets the root of the last block at or before it, also across skipped
-- slots, and the target root is that of the last block at or before the epoch's first slot.
pub live_vote_context-IsLatest :
    (spec : ChainSpec) (epoch inclusion_slot : ℕ) (roots : HashMap ℕ BlockRoot) (ctx : VoteContext)
    → IsMap roots
    → live_vote_context spec epoch inclusion_slot roots ≡ ok ctx
    → IsLatest (λ t. lookup t roots) (epoch_start_slot spec epoch) ctx.target_root
      × ((q : ℕ)
          → epoch_start_slot spec epoch ≤ q
          → q < min inclusion_slot (epoch_start_slot spec (wrap64 (epoch + 1)))
          → (r : BlockRoot) × (lookup q ctx.block_roots ≡ some r)
            × IsLatest (λ t. lookup t roots) q r)
unfolding live_vote_context root_at
live_vote_context-IsLatest spec epoch inclusion_slot roots ctx distinct h =
    let start = epoch_start_slot spec epoch in
    let end = min inclusion_slot (epoch_start_slot spec (wrap64 (epoch + 1))) in
    let found = >>=-eq-ok (ok_or inconsistent_beacon_data (latest start roots)) _ h in
    let target =
      latest-IsLatest roots start found.0.0 found.0.1 distinct
        (ok_or-ok inconsistent_beacon_data (latest start roots) found.1) in
    subst
      (λ (c : VoteContext).
        IsLatest (λ t. lookup t roots) start c.target_root
        × ((q : ℕ)
            → start ≤ q
            → q < end
            → (r : BlockRoot) × (lookup q c.block_roots ≡ some r)
              × IsLatest (λ t. lookup t roots) q r))
      (ok-injective found.2)
      (
        target,
        λ q from below.
            carry_forward-IsLatest roots start (end - start) found.0.1 [] q
              (target.0, target.1, target.2, λ t a b. target.3 t a (omega arith)) from
              (omega arith),
      )
