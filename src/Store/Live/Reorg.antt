-- ===== src/Store/Live/Reorg.antt =====
-- What a reorg deletes: `invalidate_from` of src/db/scanner/live.rs, called before a replacement branch
-- is written.
use dabeacon_indexer.Prelude.{
  ℕ, ◌<◌, leb, leb-false→lt, Bool, true, false, ◌&&◌, not, some, Key, HashMap, lookup, nat_key,
  pair_key, pair_same, any, ◌≡◌, ◌⊎◌, refl, arith, Bool-cases, inl, inr,
}
use dabeacon_indexer.Chain.{ChainSpec, slot_to_epoch}
use dabeacon_indexer.Beacon.Types.{BlockRoot}
use dabeacon_indexer.Store.Table.{retain, lookup-retain, retain-lookup}
use dabeacon_indexer.Store.Completion.Exact.{any-filter_by}
use dabeacon_indexer.Store.Live.{LiveStore, is_kept, invalidate_from}

module _ {K V : Type 0} ⦃e : Key K⦄ (at : K → ℕ) (final : V → Bool) (from : ℕ) where
  -- The rows that stay are those from before the replay and the final ones.
  abbrev pub IsCut : HashMap K V → HashMap K V → Type 0
  IsCut old new =
      (k : K) (v : V)
      → (lookup k old ≡ some v → at k < from → lookup k new ≡ some v)
        × (lookup k old ≡ some v → final v ≡ true → lookup k new ≡ some v)
        × (lookup k new ≡ some v → (at k < from) ⊎ (final v ≡ true))

  retain-IsCut :
      (rows : HashMap K V) → IsCut rows (retain (λ k v. is_kept from (at k) (final v)) rows)
  retain-IsCut rows k v = (
    λ there before. lookup-retain _ k v rows there (early (at k) (final v) before),
    λ there done. lookup-retain _ k v rows there (rw done (late (leb from (at k)))),
    λ there. kept (at k) (final v) (retain-lookup _ k v rows there),
  )
    where
      early : (a : ℕ) (b : Bool) → a < from → is_kept from a b ≡ true
      early a b h = ground arith

      late : (b : Bool) → not (b && false) ≡ true
      late b = ground arith

      kept : (a : ℕ) (b : Bool) → is_kept from a b ≡ true → (a < from) ⊎ (b ≡ true)
      kept a b h = elim (Bool-cases b) [
        | inl done ↦ inr done
        | inr live ↦ elim (Bool-cases (leb from a)) [
          | inl late ↦ cc (rw (late, live) at h)
          | inr early ↦ inl (leb-false→lt from a early)
        ]
      ]

-- A reorg takes away what is not final from the replayed slot's epoch on, for duties, and from the
-- replayed slot on, for proposals, sync duties, blocks and coverage; all that is final, or from
-- before, stays. The completed scans and the gaps stay.
pub invalidate_from-IsCut :
    (spec : ChainSpec) (s : LiveStore) (slot : ℕ) (covered : ℕ × ℕ)
    → let t = invalidate_from spec s slot in
      IsCut
        (λ (k : ℕ × ℕ). k.1)
        (λ row. row.columns.finalized)
        (slot_to_epoch spec slot)
        s.tables.attestation_duties
        t.tables.attestation_duties
      × IsCut
          (λ (k : ℕ). k)
          (λ row. row.finalized)
          slot
          s.tables.block_proposals
          t.tables.block_proposals
      × IsCut
          (λ (k : ℕ × ℕ). k.1)
          (λ row. row.finalized)
          slot
          s.tables.sync_duties
          t.tables.sync_duties
      × ((k : ℕ) (block : BlockRoot × BlockRoot)
          → (lookup k t.blocks ≡ some block → k < slot)
            × (k < slot → lookup k s.blocks ≡ some block → lookup k t.blocks ≡ some block))
      × (any (pair_same covered) t.coverage
          ≡ (any (pair_same covered) s.coverage && not (leb slot covered.1)))
      × (t.tables.completed_scans ≡ s.tables.completed_scans)
      × (t.tables.live_gaps ≡ s.tables.live_gaps)
unfolding invalidate_from
invalidate_from-IsCut spec s slot covered = (
  retain-IsCut _ _ (slot_to_epoch spec slot) s.tables.attestation_duties,
  retain-IsCut _ _ slot s.tables.block_proposals,
  retain-IsCut _ _ slot s.tables.sync_duties,
  λ k block. (
    λ there. not_leb slot k (retain-lookup _ k block s.blocks there),
    λ before there. lookup-retain _ k block s.blocks there (leb_not slot k before),
  ),
  any-filter_by _ covered s.coverage,
  refl,
  refl,
)
  where
    not_leb : (a b : ℕ) → not (leb a b) ≡ true → b < a
    not_leb a b h = ground arith

    leb_not : (a b : ℕ) → b < a → not (leb a b) ≡ true
    leb_not a b h = ground arith
