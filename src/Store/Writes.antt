-- ===== src/Store/Writes.antt =====
-- Calls of the writers of src/db/scanner/attestations.rs, proposals.rs, sync.rs and completion.rs, in
-- any order.
pub mod Frozen
pub mod Final
pub mod Settled
mod Examples
use dabeacon_indexer.Prelude.{ℕ, List, [], ◌∷◌, HashMap}
use dabeacon_indexer.Chain.{ChainSpec}
use dabeacon_indexer.Store.Tables.{
  DutyColumns, ProposalColumns, SyncColumns, RewardColumns, InclusionDetails, Store,
}
use dabeacon_indexer.Store.Duties.{
  upsert_attestation_duty, update_attestation_rewards_batch, repair_finalized_inclusion,
}
use dabeacon_indexer.Store.Completion.{mark_complete}
use dabeacon_indexer.Store.Production.{upsert_block_proposal, upsert_sync_duty}

-- A call of one of the writers.
pub data Write : Type 0 where
  duty : ℕ × ℕ → DutyColumns → Write
  rewards : HashMap (ℕ × ℕ) RewardColumns → Write
  repair : ℕ × ℕ → InclusionDetails → Write
  complete : List ℕ → ℕ → Write
  proposal : ℕ → ProposalColumns → Write
  sync : ℕ × ℕ → SyncColumns → Write

module _ (spec : ChainSpec) where
  unfoldable pub apply : Store → Write → Store
  apply store (duty key new) = upsert_attestation_duty store key new
  apply store (rewards batch) = update_attestation_rewards_batch store batch
  apply store (repair key details) = repair_finalized_inclusion store key details
  apply store (complete validators epoch) = mark_complete store validators epoch
  apply store (proposal slot new) = upsert_block_proposal spec store slot new
  apply store (sync key new) = upsert_sync_duty spec store key new

  unfoldable pub apply_all : Store → List Write → Store
  apply_all store [] = store
  apply_all store (write ∷ writes) = apply_all (apply store write) writes
