-- ===== src/Store/Writes/Examples.antt =====
-- The writes of src/db/scanner on a concrete store.
use dabeacon_indexer.Prelude.{
  ℕ, min, Bool, true, false, not, ◌&&◌, ◌||◌, List, [], ◌∷◌, any, none, some, lookup, nat_key,
  pair_key, pair_same, pos, ◌≡◌, refl,
}
use dabeacon_indexer.Chain.{mainnet}
use dabeacon_indexer.Store.Table.{Keeps}
use dabeacon_indexer.Store.Tables.{
  DutyColumns, AttestationDuty, ProposalColumns, SyncColumns, Store, is_completed,
}
use dabeacon_indexer.Store.Duties.{upsert_attestation_duty}
use dabeacon_indexer.Store.Duties.Earliest.{upsert_attestation_duty_earliest}
use dabeacon_indexer.Store.Completion.{is_scanned, mark_complete}
use dabeacon_indexer.Store.Completion.Exact.{is_completed-mark_complete}
use dabeacon_indexer.Store.Writes.{Write, duty, complete, proposal, sync, apply_all}
use dabeacon_indexer.Store.Writes.Settled.{lookup-apply_all_proposal, lookup-apply_all_sync}

abbrev columns_at : ℕ → Bool → DutyColumns
columns_at slot final = record {
  assigned_slot = 70;
  committee_index = 3;
  committee_position = 5;
  included = true;
  inclusion_slot = some slot;
  inclusion_delay = some (pos 1);
  effective_inclusion_delay = some 1;
  source_correct = none;
  target_correct = some true;
  head_correct = some true;
  source_reward = some (pos 12);
  target_reward = none;
  head_reward = none;
  inactivity_penalty = none;
  finalized = final;
}

abbrev final_duty : AttestationDuty
final_duty = record { columns = columns_at 72 true; inclusion_known = true }

abbrev live_duty : AttestationDuty
live_duty = record { columns = columns_at 75 false; inclusion_known = false }

abbrev final_proposal : ProposalColumns
final_proposal = record {
  proposer_index = 7;
  proposed = true;
  reward_total = some (pos 40);
  reward_attestations = none;
  reward_sync = none;
  reward_slashings = none;
  finalized = true;
}

abbrev final_sync : SyncColumns
final_sync = record {
  participated = true;
  reward = some (pos 2);
  missed_block = false;
  finalized = true;
}

-- Epoch 2 of validator 7 is complete; validator 8 has a live row.
abbrev stored : Store
stored = record {
  attestation_duties = ((7, 2), final_duty) ∷ ((8, 2), live_duty) ∷ [];
  block_proposals = (80, final_proposal) ∷ [];
  sync_duties = ((7, 81), final_sync) ∷ [];
  completed_scans = (7, 2) ∷ [];
  live_gaps = (8, 2) ∷ (8, 3) ∷ [];
}

abbrev history : List Write
history =
    duty (7, 2) (columns_at 71 true)
    ∷ proposal 80 (record {
      proposer_index = 9;
      proposed = false;
      reward_total = none;
      reward_attestations = none;
      reward_sync = none;
      reward_slashings = none;
      finalized = true;
    })
    ∷ sync (7, 81)
        (record { participated = false; reward = none; missed_block = true; finalized = false })
    ∷ complete (8 ∷ []) 2
    ∷ []

lookup-apply_all_proposal_example :
    lookup 80 (apply_all mainnet stored history).block_proposals ≡ some final_proposal
unfolding is_completed lookup
lookup-apply_all_proposal_example =
    lookup-apply_all_proposal mainnet 80 final_proposal refl stored history refl refl

lookup-apply_all_sync_example :
    lookup (7, 81) (apply_all mainnet stored history).sync_duties ≡ some final_sync
unfolding is_completed lookup
lookup-apply_all_sync_example =
    lookup-apply_all_sync mainnet 7 81 final_sync refl stored history refl refl

upsert_attestation_duty_earliest_example :
    Keeps
      (λ row. row.columns.inclusion_slot ≡ some (min 75 73))
      (8, 2)
      (upsert_attestation_duty stored (8, 2) (columns_at 73 false)).attestation_duties
unfolding lookup
upsert_attestation_duty_earliest_example =
    upsert_attestation_duty_earliest stored (8, 2) live_duty (columns_at 73 false) 75 73 refl refl
      refl refl refl

is_completed-mark_complete_example :
    (is_completed (mark_complete stored (8 ∷ []) 2).completed_scans (8, 2)
      ≡ (is_scanned (8 ∷ []) 2 (8, 2) || is_completed stored.completed_scans (8, 2)))
    × (any (pair_same (8, 2)) (mark_complete stored (8 ∷ []) 2).live_gaps
        ≡ (any (pair_same (8, 2)) stored.live_gaps && not (is_scanned (8 ∷ []) 2 (8, 2))))
is_completed-mark_complete_example = is_completed-mark_complete stored (8 ∷ []) 2 (8, 2)
