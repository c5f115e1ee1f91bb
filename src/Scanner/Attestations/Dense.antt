-- ===== src/Scanner/Attestations/Dense.antt =====
-- src/scanner/attestations/dense.rs: all blocks of an epoch and of the next one are fetched and
-- decoded at once. The requests and the decoding that run side by side stand in the order in which
-- their results are awaited.
pub mod Atomic
use dabeacon_indexer.Prelude.{
  pos, ℕ, zero, suc, ◌*◌, Bool, true, false, String, List, [], ◌∷◌, map, range, contains, Option,
  none, some, filter_by, HashMap, lookup, insert, nat_key, pair_key, if◌then◌else◌,
}
use dabeacon_indexer.Chain.{ChainSpec, epoch_start_slot}
use dabeacon_indexer.Beacon.Types.{AttesterDuty, ValidatorAttestationReward, SignedBeaconBlock}
use dabeacon_indexer.Beacon.Node.{BeaconNode}
use dabeacon_indexer.Store.Tables.{DutyColumns}
use dabeacon_indexer.Store.Writes.{duty}
use dabeacon_indexer.Scanner.Rewards.{validate_epoch_response}
use dabeacon_indexer.Scanner.Scan.{Scan, done, lift, write, for_all, ◌>>=◌, ◌>>◌}
use dabeacon_indexer.Scanner.Attestations.{AttestationInclusion, effective_inclusion_delay}
use dabeacon_indexer.Scanner.Attestations.Committees.{build_committee_map}
use dabeacon_indexer.Scanner.Attestations.Decode.{Inclusions, collect_inclusions_from_blocks}
use dabeacon_indexer.Scanner.Attestations.RootMap.{
  Blocks, fetch_blocks_for_slots, build_vote_context,
}
use dabeacon_indexer.Scanner.Attestations.Sparse.{and_then, map_option, is_some}

-- Of two rewards for one validator the later one is kept.
unfoldable pub rewards_map :
    HashMap ℕ ValidatorAttestationReward
    → List ValidatorAttestationReward
    → HashMap ℕ ValidatorAttestationReward
rewards_map found [] = found
rewards_map found (r ∷ rewards) = rewards_map (insert r.validator_index r found) rewards

-- The slots without a block.
unfoldable pub missed_of : Blocks → List ℕ
missed_of [] = []
missed_of ((slot, none) ∷ blocks) = slot ∷ missed_of blocks
missed_of ((slot, some block) ∷ blocks) = missed_of blocks

abbrev pub dense_columns :
    AttesterDuty
    → Option AttestationInclusion
    → Option ValidatorAttestationReward
    → List ℕ
    → Bool
    → DutyColumns
dense_columns assigned inclusion reward missed_slots finalized = record {
  assigned_slot = assigned.slot;
  committee_index = assigned.committee_index;
  committee_position = assigned.validator_committee_index;
  included = is_some inclusion;
  inclusion_slot = map_option (λ inc. inc.inclusion_slot) inclusion;
  inclusion_delay = map_option (λ inc. pos inc.inclusion_delay) inclusion;
  effective_inclusion_delay =
      map_option
        (λ inc.
          effective_inclusion_delay assigned.slot inc.inclusion_slot inc.inclusion_delay
            missed_slots)
        inclusion;
  source_correct = map_option (λ inc. inc.source_correct) inclusion;
  target_correct = map_option (λ inc. inc.target_correct) inclusion;
  head_correct = map_option (λ inc. inc.head_correct) inclusion;
  source_reward = map_option (λ r. r.source) reward;
  target_reward = map_option (λ r. r.target) reward;
  head_reward = map_option (λ r. r.head) reward;
  inactivity_penalty = and_then reward (λ r. r.inactivity);
  finalized = finalized;
}

module _ (epoch : ℕ) (scan_validators : List ℕ) (finalized : Bool)
    (rewards : HashMap ℕ ValidatorAttestationReward) where
  unfoldable pub write_duty_row : Inclusions → List ℕ → AttesterDuty → Scan (Unit {0})
  write_duty_row inclusions missed_slots assigned =
      if contains scan_validators assigned.validator_index
      then write (
          duty (assigned.validator_index, epoch)
            (dense_columns assigned (lookup assigned.validator_index inclusions)
              (lookup assigned.validator_index rewards) missed_slots finalized))
      else done

  unfoldable pub write_duty_rows : List AttesterDuty → Inclusions → List ℕ → Scan (Unit {0})
  write_duty_rows duties inclusions missed_slots =
      for_all (write_duty_row inclusions missed_slots) duties

-- `all_blocks[..count]`.
unfoldable pub epoch_blocks : ℕ → Blocks → Blocks
epoch_blocks zero blocks = []
epoch_blocks (suc count) [] = []
epoch_blocks (suc count) (block ∷ blocks) = block ∷ epoch_blocks count blocks

module _ (spec : ChainSpec) (hex_decode : String → Option (List ℕ)) (node : BeaconNode) where
  unfoldable pub process_epoch_attestation_duties : ℕ → List ℕ → Bool → Scan (Unit {0})
  process_epoch_attestation_duties epoch scan_validators finalized = do
    let start_slot = epoch_start_slot spec epoch
    all_blocks ←
        lift (fetch_blocks_for_slots node.get_block (range start_slot (spec.slots_per_epoch * 2)))
    committees ← lift (node.get_committees epoch)
    vote_ctx ← lift (
        build_vote_context spec node.get_block_root node.get_current_justified epoch start_slot
          (epoch_blocks spec.slots_per_epoch all_blocks))
    duties ← lift (node.get_attester_duties epoch scan_validators)
    att_rewards ← lift (node.get_attestation_rewards epoch scan_validators)
    let rewards = rewards_map [] att_rewards
    lift (
        validate_epoch_response scan_validators
          (map (λ (d : AttesterDuty). d.validator_index) duties)
          (map (λ (entry : ℕ × ValidatorAttestationReward). entry.0) rewards))
    inclusions ← lift (
        collect_inclusions_from_blocks spec hex_decode all_blocks (build_committee_map committees)
          scan_validators vote_ctx)
    write_duty_rows epoch scan_validators finalized rewards duties inclusions (missed_of all_blocks)
