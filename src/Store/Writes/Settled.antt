-- ===== src/Store/Writes/Settled.antt =====
-- The rows of src/db/scanner/proposals.rs and src/db/scanner/sync.rs under any calls of the
-- writers.
use dabeacon_indexer.Prelude.{
  ℕ, ◌/◌, true, false, List, [], ◌∷◌, some, lookup, nat_key, pair_key, ◌≡◌, refl, ap, ◌∙◌, arith,
}
use dabeacon_indexer.Chain.{ChainSpec}
use dabeacon_indexer.Store.Table.{Keeps, upsert-Keeps}
use dabeacon_indexer.Store.Tables.{ProposalColumns, SyncColumns, Store, is_completed, set_duties}
use dabeacon_indexer.Store.Duties.{
  upsert_attestation_duty, update_attestation_rewards_batch, repair_finalized_inclusion,
}
use dabeacon_indexer.Store.Completion.{mark_complete}
use dabeacon_indexer.Store.Production.{
  upsert_block_proposal, upsert_sync_duty, proposal_replaces, sync_replaces,
}
use dabeacon_indexer.Store.Writes.{
  Write, duty, rewards, repair, complete, proposal, sync, apply, apply_all,
}
use dabeacon_indexer.Store.Writes.Frozen.{apply-is_completed}

module _ (spec : ChainSpec) where
  proposal_replaces-frozen :
      (scans : List (ℕ × ℕ)) (slot : ℕ) (old new : ProposalColumns)
      → old.finalized ≡ true
      → is_completed scans (old.proposer_index, slot / spec.slots_per_epoch) ≡ true
      → proposal_replaces spec scans slot old new ≡ false
  unfolding proposal_replaces
  proposal_replaces-frozen scans slot old new final done = ground arith

  sync_replaces-frozen :
      (scans : List (ℕ × ℕ)) (validator slot : ℕ) (old new : SyncColumns)
      → old.finalized ≡ true
      → is_completed scans (validator, slot / spec.slots_per_epoch) ≡ true
      → sync_replaces spec scans (validator, slot) old new ≡ false
  unfolding sync_replaces
  sync_replaces-frozen scans validator slot old new final done = ground arith

module _ (spec : ChainSpec) (slot : ℕ) (old : ProposalColumns) (final : old.finalized ≡ true) where
  apply-proposal :
      (store : Store) (write : Write)
      → is_completed store.completed_scans (old.proposer_index, slot / spec.slots_per_epoch) ≡ true
      → Keeps (λ row. row ≡ old) slot store.block_proposals
      → Keeps (λ row. row ≡ old) slot (apply spec store write).block_proposals
  unfolding apply upsert_attestation_duty update_attestation_rewards_batch
      repair_finalized_inclusion mark_complete upsert_block_proposal upsert_sync_duty set_duties
  apply-proposal store (duty k new) done kept = kept
  apply-proposal store (rewards batch) done kept = kept
  apply-proposal store (repair k details) done kept = kept
  apply-proposal store (complete validators epoch) done kept = kept
  apply-proposal store (proposal k new) done kept =
      upsert-Keeps _ _ _ (λ row. row ≡ old) slot k new store.block_proposals kept
        (λ same row is_old replaced.
          let frozen =
            proposal_replaces-frozen spec store.completed_scans slot old new final done in
          cc)
  apply-proposal store (sync k new) done kept = kept

  apply_all-proposal :
      (store : Store) (writes : List Write)
      → is_completed store.completed_scans (old.proposer_index, slot / spec.slots_per_epoch) ≡ true
      → Keeps (λ row. row ≡ old) slot store.block_proposals
      → Keeps (λ row. row ≡ old) slot (apply_all spec store writes).block_proposals
  unfolding apply_all
  apply_all-proposal store [] done kept = kept
  apply_all-proposal store (write ∷ writes) done kept =
      apply_all-proposal (apply spec store write) writes
        (apply-is_completed spec (old.proposer_index, slot / spec.slots_per_epoch) store write done)
        (apply-proposal store write done kept)

  -- A proposal that is finalized, and whose proposer's scan of the slot's epoch is complete, is
  -- the same row after any calls of the writers.
  pub lookup-apply_all_proposal :
      (store : Store) (writes : List Write)
      → is_completed store.completed_scans (old.proposer_index, slot / spec.slots_per_epoch) ≡ true
      → lookup slot store.block_proposals ≡ some old
      → lookup slot (apply_all spec store writes).block_proposals ≡ some old
  lookup-apply_all_proposal store writes done there =
      let kept = apply_all-proposal store writes done (old, there, refl) in
      kept.1 ∙ ap (λ (row : ProposalColumns). some row) kept.2

module _ (spec : ChainSpec) (validator slot : ℕ) (old : SyncColumns)
    (final : old.finalized ≡ true) where
  apply-sync :
      (store : Store) (write : Write)
      → is_completed store.completed_scans (validator, slot / spec.slots_per_epoch) ≡ true
      → Keeps (λ row. row ≡ old) (validator, slot) store.sync_duties
      → Keeps (λ row. row ≡ old) (validator, slot) (apply spec store write).sync_duties
  unfolding apply upsert_attestation_duty update_attestation_rewards_batch
      repair_finalized_inclusion mark_complete upsert_block_proposal upsert_sync_duty set_duties
  apply-sync store (duty k new) done kept = kept
  apply-sync store (rewards batch) done kept = kept
  apply-sync store (repair k details) done kept = kept
  apply-sync store (complete validators epoch) done kept = kept
  apply-sync store (proposal k new) done kept = kept
  apply-sync store (sync k new) done kept =
      upsert-Keeps _ _ _ (λ row. row ≡ old) (validator, slot) k new store.sync_duties kept
        (λ same row is_old replaced.
          let frozen =
            sync_replaces-frozen spec store.completed_scans validator slot old new final done in
          cc)

  apply_all-sync :
      (store : Store) (writes : List Write)
      → is_completed store.completed_scans (validator, slot / spec.slots_per_epoch) ≡ true
      → Keeps (λ row. row ≡ old) (validator, slot) store.sync_duties
      → Keeps (λ row. row ≡ old) (validator, slot) (apply_all spec store writes).sync_duties
  unfolding apply_all
  apply_all-sync store [] done kept = kept
  apply_all-sync store (write ∷ writes) done kept =
      apply_all-sync (apply spec store write) writes
        (apply-is_completed spec (validator, slot / spec.slots_per_epoch) store write done)
        (apply-sync store write done kept)

  -- A sync duty that is finalized, and whose validator's scan of the slot's epoch is complete, is
  -- the same row after any calls of the writers.
  pub lookup-apply_all_sync :
      (store : Store) (writes : List Write)
      → is_completed store.completed_scans (validator, slot / spec.slots_per_epoch) ≡ true
      → lookup (validator, slot) store.sync_duties ≡ some old
      → lookup (validator, slot) (apply_all spec store writes).sync_duties ≡ some old
  lookup-apply_all_sync store writes done there =
      let kept = apply_all-sync store writes done (old, there, refl) in
      kept.1 ∙ ap (λ (row : SyncColumns). some row) kept.2
