-- ===== src/Scanner/Epoch.antt =====
-- `scan_epoch` of src/scanner/mod.rs, and the live worker's writes of the same file.
pub mod Scope
pub mod SyncScope
pub mod Completion
pub mod Success
pub mod Isolation
mod Examples
use dabeacon_indexer.Prelude.{
  ℕ, leb, if◌then◌else◌, Bool, true, false, String, List, [], ◌∷◌, map, Option, none, some, HashMap,
  insert, pair_key, ℤ,
}
use dabeacon_indexer.Chain.{ChainSpec}
use dabeacon_indexer.Beacon.Types.{AttesterDuty, ValidatorAttestationReward}
use dabeacon_indexer.Beacon.Node.{BeaconNode}
use dabeacon_indexer.Store.Tables.{DutyColumns, RewardColumns}
use dabeacon_indexer.Store.Writes.{duty, rewards, complete}
use dabeacon_indexer.Scanner.Scan.{Scan, done, lift, write, for_all, ◌>>=◌, ◌>>◌}
use dabeacon_indexer.Scanner.Rewards.{validate_reward_indices}
use dabeacon_indexer.Scanner.Attestations.Dense.{process_epoch_attestation_duties}
use dabeacon_indexer.Scanner.Attestations.Sparse.Epoch.{process_epoch_attestation_duties_sparse}
use dabeacon_indexer.Scanner.Proposals.{process_epoch_proposals}
use dabeacon_indexer.Scanner.SyncCommittee.Epoch.{process_epoch_sync}

pub data EffectiveScanMode : Type 0 where
  dense sparse : EffectiveScanMode

module _ (spec : ChainSpec) (hex_decode : String → Option (List ℕ)) (node : BeaconNode) (epoch : ℕ)
    (scan_validators : List ℕ) (finalized : Bool) where
  unfoldable pub scan_attestations : EffectiveScanMode → Scan (Unit {0})
  scan_attestations dense =
      process_epoch_attestation_duties spec hex_decode node epoch scan_validators finalized
  scan_attestations sparse =
      process_epoch_attestation_duties_sparse spec hex_decode node epoch scan_validators finalized

  -- The stages before the completion mark.
  unfoldable pub scan_stages : EffectiveScanMode → Scan (Unit {0})
  scan_stages mode = do
    scan_attestations mode
    process_epoch_proposals node finalized spec epoch scan_validators
    if leb spec.altair_fork_epoch epoch
        then process_epoch_sync spec hex_decode node epoch finalized scan_validators
        else done

  unfoldable pub scan_tracked : EffectiveScanMode → Scan (Unit {0})
  scan_tracked mode =
      scan_stages mode >> (if finalized then write (complete scan_validators epoch) else done)

  unfoldable pub scan_epoch : EffectiveScanMode → Scan (Unit {0})
  scan_epoch mode = elim scan_validators [ [] ↦ done | v ∷ vs ↦ scan_tracked mode ]

-- The rewards of the epoch as the batch's tuples.
unfoldable pub reward_tuples : ℕ → List ValidatorAttestationReward → HashMap (ℕ × ℕ) RewardColumns
reward_tuples epoch = map (λ (r : ValidatorAttestationReward). (
  (r.validator_index, epoch),
  record {
    source_reward = some r.source;
    target_reward = some r.target;
    head_reward = some r.head;
    inactivity_penalty = r.inactivity;
  },
))

unfoldable pub persist_live_attestation_rewards :
    ℕ → List ValidatorAttestationReward → Scan (Unit {0})
persist_live_attestation_rewards epoch total_rewards =
    write (rewards (reward_tuples epoch total_rewards))

abbrev pub pending_columns : AttesterDuty → DutyColumns
pending_columns assigned = record {
  assigned_slot = assigned.slot;
  committee_index = assigned.committee_index;
  committee_position = assigned.validator_committee_index;
  included = false;
  inclusion_slot = none;
  inclusion_delay = none;
  effective_inclusion_delay = none;
  source_correct = none;
  target_correct = none;
  head_correct = none;
  source_reward = none;
  target_reward = none;
  head_reward = none;
  inactivity_penalty = none;
  finalized = false;
}

unfoldable pub seed_live_attestation_duties : BeaconNode → ℕ → List ℕ → Scan (Unit {0})
seed_live_attestation_duties node epoch [] = done
seed_live_attestation_duties node epoch (v ∷ validators) = do
  duties ← lift (node.get_attester_duties epoch (v ∷ validators))
  lift (
      validate_reward_indices (v ∷ validators)
        (map (λ (d : AttesterDuty). d.validator_index) duties))
  for_all (λ (d : AttesterDuty). write (duty (d.validator_index, epoch) (pending_columns d))) duties
