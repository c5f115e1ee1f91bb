-- ===== src/Store/Live/Anchor.antt =====
-- `prune_completed_evidence` of src/db/scanner/live.rs keeps the ancestry of the recent slots.
use dabeacon_indexer.Prelude.{
  ℕ, ◌+◌, ◌≤◌, ◌<◌, ltb, ltb→lt, max, true, not, none, some, [], ◌∷◌, HashMap, lookup, nat_key, ◌≡◌,
  refl, sym, ◌∙◌, subst, arith, Bool-cases, Option-cases, inl, inr, some-inj, ◌==◌, ==_refl, ◌⊎◌,
}
use dabeacon_indexer.Chain.{ChainSpec, epoch_start_slot}
use dabeacon_indexer.Beacon.Types.{BlockRoot}
use dabeacon_indexer.Store.Table.{lookup-retain, retain-none}
use dabeacon_indexer.Store.Live.{LiveStore}
use dabeacon_indexer.Store.Live.Jobs.{anchor_slot, is_behind_anchor, prune_completed_evidence}

abbrev StoredBlocks : Type 0
StoredBlocks = HashMap ℕ (BlockRoot × BlockRoot)

-- The block is that of the last stored slot at or before `slot`.
abbrev pub IsTip : StoredBlocks → ℕ → BlockRoot × BlockRoot → Type 0
IsTip blocks slot block =
    (s : ℕ) × (s ≤ slot)
    × (lookup s blocks ≡ some block)
    × ((t : ℕ) → s < t → t ≤ slot → lookup t blocks ≡ none)

abbrev IsStoredBelow : ℕ → StoredBlocks → ℕ → Type 0
IsStoredBelow floor blocks a =
    (a < floor) × (block : BlockRoot × BlockRoot) × (lookup a blocks ≡ some block)

stored_here :
    (floor slot : ℕ) (block : BlockRoot × BlockRoot) (blocks : StoredBlocks)
    → ltb slot floor ≡ true
    → IsStoredBelow floor ((slot, block) ∷ blocks) slot
unfolding lookup
stored_here floor slot block blocks below = (ltb→lt slot floor below, block, rw (==_refl slot) refl)

stored_later :
    (floor slot a : ℕ) (block : BlockRoot × BlockRoot) (blocks : StoredBlocks)
    → IsStoredBelow floor blocks a
    → IsStoredBelow floor ((slot, block) ∷ blocks) a
unfolding lookup
stored_later floor slot a block blocks (below, b, there) = elim (Bool-cases (slot == a)) [
  | inl same ↦ (below, block, rw same refl)
  | inr other ↦ (below, b, rw other there)
]

max_cases : (a b : ℕ) → (max a b ≡ a) ⊎ (max a b ≡ b)
max_cases a b = ground arith

-- The anchor is a stored slot below the floor.
anchor_slot-stored :
    (floor : ℕ) (blocks : StoredBlocks) (a : ℕ)
    → anchor_slot floor blocks ≡ some a
    → IsStoredBelow floor blocks a
unfolding anchor_slot
anchor_slot-stored floor [] a h = cc
anchor_slot-stored floor ((slot, block) ∷ blocks) a h = elim (Bool-cases (ltb slot floor)) [
  | inl below ↦ elim (Option-cases (anchor_slot floor blocks)) [
    | inl nothing ↦
        subst (IsStoredBelow floor ((slot, block) ∷ blocks))
          (some-inj (rw (below, anchor_slot, nothing) at h))
          (stored_here floor slot block blocks below)
    | inr (later, found) ↦
        let e = some-inj (rw (below, anchor_slot, found) at h) in
        elim (max_cases slot later) [
          | inl here ↦
              subst (IsStoredBelow floor ((slot, block) ∷ blocks)) (sym here ∙ e)
                (stored_here floor slot block blocks below)
          | inr behind ↦ subst (IsStoredBelow floor ((slot, block) ∷ blocks)) (sym behind ∙ e) (
              stored_later floor slot later block blocks
                (anchor_slot-stored floor blocks later found))
        ]
  ]
  | inr above ↦
      stored_later floor slot a block blocks
        (anchor_slot-stored floor blocks a (rw (above, anchor_slot) at h))
]

module _ (floor : ℕ) (blocks : StoredBlocks) (slot : ℕ) (block : BlockRoot × BlockRoot) where
  tip-is_kept :
      (s : ℕ)
      → floor ≤ slot + 1
      → s ≤ slot
      → ((t : ℕ) → s < t → t ≤ slot → lookup t blocks ≡ none)
      → not (is_behind_anchor (anchor_slot floor blocks) s) ≡ true
  unfolding is_behind_anchor
  tip-is_kept s recent before gap = elim (Option-cases (anchor_slot floor blocks)) [
    | inl nothing ↦ rw (nothing, is_behind_anchor) refl
    | inr (a, found) ↦
        rw (found, is_behind_anchor)
          (elim (Bool-cases (ltb s a)) [
            | inl behind ↦
                let (below, b, there) = anchor_slot-stored floor blocks a found in
                let missing = gap a (ltb→lt s a behind) (omega arith) in cc
            | inr kept ↦ rw kept refl
          ])
  ]

-- Pruning keeps, for every slot from the one before the floor on, the last stored block at or before
-- it: where the boundary's slots were skipped, the anchor before them stays.
pub prune_completed_evidence-IsTip :
    (spec : ChainSpec) (s : LiveStore) (retain_epoch slot : ℕ) (block : BlockRoot × BlockRoot)
    → epoch_start_slot spec retain_epoch ≤ slot + 1
    → IsTip s.blocks slot block
    → IsTip (prune_completed_evidence spec s retain_epoch).blocks slot block
unfolding prune_completed_evidence
prune_completed_evidence-IsTip spec s retain_epoch slot block recent (t, before, there, gap) =
    let floor = epoch_start_slot spec retain_epoch in
    (
      t,
      before,
      lookup-retain _ t block s.blocks there
          (tip-is_kept floor s.blocks slot block t recent before gap),
      λ u a b. retain-none _ u s.blocks (gap u a b),
    )
