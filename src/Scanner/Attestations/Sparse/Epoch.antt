-- ===== src/Scanner/Attestations/Sparse/Epoch.antt =====
-- `process_epoch_attestation_duties_sparse` of src/scanner/attestations/sparse.rs.
use dabeacon_indexer.Prelude.{
  ℕ, ◌&&◌, not, if◌then◌else◌, Bool, String, List, [], ◌∷◌, map, contains, Option, HashMap, lookup,
  nat_key,
}
use dabeacon_indexer.Error.{Result, ok, err, inconsistent_beacon_data}
use dabeacon_indexer.Chain.{ChainSpec}
use dabeacon_indexer.Beacon.Types.{AttesterDuty, ValidatorAttestationReward}
use dabeacon_indexer.Beacon.Node.{BeaconNode}
use dabeacon_indexer.Store.Writes.{duty}
use dabeacon_indexer.Scanner.Rewards.{validate_epoch_response}
use dabeacon_indexer.Scanner.Scan.{Scan, done, lift, write, for_all, ◌>>=◌, ◌>>◌}
use dabeacon_indexer.Scanner.Attestations.{AttestationInclusion}
use dabeacon_indexer.Scanner.Attestations.Committees.{CommitteeMap, build_committee_map}
use dabeacon_indexer.Scanner.Attestations.Dense.{rewards_map}
use dabeacon_indexer.Scanner.Attestations.Sparse.{
  SparseRow, derive_sparse_row, with_marks, sparse_columns, has_positive, is_some, map_option,
  scan_forward_for_inclusion,
}

-- The row of a duty, with the observed marks in place of those of the rewards.
unfoldable pub sparse_row :
    AttesterDuty → Option ValidatorAttestationReward → Option (AttestationInclusion × ℕ) → SparseRow
sparse_row assigned reward found =
    with_marks
      (derive_sparse_row assigned reward
        (map_option (λ (f : AttestationInclusion × ℕ). (f.0.inclusion_slot, f.1)) found))
      found

-- An earned reward without an inclusion is an error.
abbrev pub check_reward :
    Option ValidatorAttestationReward → Option (AttestationInclusion × ℕ) → Result (Unit {0})
check_reward reward found =
    if not (is_some found) && has_positive reward then err inconsistent_beacon_data else ok tt

module _ (spec : ChainSpec) (hex_decode : String → Option (List ℕ)) (node : BeaconNode) (epoch : ℕ)
    (scan_validators : List ℕ) (finalized : Bool) where
  -- The body of the loop over the duties.
  unfoldable pub process_sparse_duty :
      CommitteeMap → HashMap ℕ ValidatorAttestationReward → AttesterDuty → Scan (Unit {0})
  process_sparse_duty committee_map rewards assigned =
      if contains scan_validators assigned.validator_index
      then (do
        let reward = lookup assigned.validator_index rewards
        found ← lift (
            scan_forward_for_inclusion spec hex_decode node.get_block node.get_block_root assigned
              epoch committee_map)
        lift (check_reward reward found)
        write (
            duty (assigned.validator_index, epoch)
              (sparse_columns assigned (sparse_row assigned reward found) finalized)))
      else done

  unfoldable pub process_sparse_duties : Scan (Unit {0})
  process_sparse_duties = do
    duties ← lift (node.get_attester_duties epoch scan_validators)
    att_rewards ← lift (node.get_attestation_rewards epoch scan_validators)
    let rewards = rewards_map [] att_rewards
    lift (
        validate_epoch_response scan_validators
          (map (λ (d : AttesterDuty). d.validator_index) duties)
          (map (λ (entry : ℕ × ValidatorAttestationReward). entry.0) rewards))
    committees ← lift (node.get_committees epoch)
    for_all (process_sparse_duty (build_committee_map committees) rewards) duties

  unfoldable pub process_epoch_attestation_duties_sparse : Scan (Unit {0})
  process_epoch_attestation_duties_sparse = elim scan_validators [
    | [] ↦ done
    | v ∷ vs ↦ process_sparse_duties
  ]
