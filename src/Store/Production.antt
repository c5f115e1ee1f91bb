-- ===== src/Store/Production.antt =====
-- src/db/scanner/proposals.rs and src/db/scanner/sync.rs: the writes of proposals and sync duties.
use dabeacon_indexer.Prelude.{ℕ, ◌/◌, Bool, ◌&&◌, ◌||◌, not, List, or_else, nat_key, pair_key}
use dabeacon_indexer.Chain.{ChainSpec}
use dabeacon_indexer.Store.Table.{upsert}
use dabeacon_indexer.Store.Tables.{ProposalColumns, SyncColumns, Store, is_completed}

module _ (spec : ChainSpec) where
  -- The stored row's proposer.
  unfoldable pub proposal_replaces : List (ℕ × ℕ) → ℕ → ProposalColumns → ProposalColumns → Bool
  proposal_replaces scans slot old new =
      not old.finalized
      || (new.finalized
          && not (is_completed scans (old.proposer_index, slot / spec.slots_per_epoch)))

  unfoldable pub proposal_merge : ProposalColumns → ProposalColumns → ProposalColumns
  proposal_merge old new = record {
    proposer_index = new.proposer_index;
    proposed = new.proposed;
    reward_total = or_else new.reward_total old.reward_total;
    reward_attestations = or_else new.reward_attestations old.reward_attestations;
    reward_sync = or_else new.reward_sync old.reward_sync;
    reward_slashings = or_else new.reward_slashings old.reward_slashings;
    finalized = new.finalized;
  }

  unfoldable pub upsert_block_proposal : Store → ℕ → ProposalColumns → Store
  upsert_block_proposal store slot new = record {
    attestation_duties = store.attestation_duties;
    block_proposals =
        upsert (proposal_replaces store.completed_scans slot) proposal_merge (λ row. row) slot new
          store.block_proposals;
    sync_duties = store.sync_duties;
    completed_scans = store.completed_scans;
    live_gaps = store.live_gaps;
  }

  unfoldable pub sync_replaces : List (ℕ × ℕ) → ℕ × ℕ → SyncColumns → SyncColumns → Bool
  sync_replaces scans (validator, slot) old new =
      not old.finalized
      || (new.finalized && not (is_completed scans (validator, slot / spec.slots_per_epoch)))

  unfoldable pub sync_merge : SyncColumns → SyncColumns → SyncColumns
  sync_merge old new = record {
    participated = new.participated;
    reward = or_else new.reward old.reward;
    missed_block = new.missed_block;
    finalized = new.finalized;
  }

  unfoldable pub upsert_sync_duty : Store → ℕ × ℕ → SyncColumns → Store
  upsert_sync_duty store key new = record {
    attestation_duties = store.attestation_duties;
    block_proposals = store.block_proposals;
    sync_duties =
        upsert (sync_replaces store.completed_scans key) sync_merge (λ row. row) key new
          store.sync_duties;
    completed_scans = store.completed_scans;
    live_gaps = store.live_gaps;
  }
