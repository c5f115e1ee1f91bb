-- ===== src/Scanner/Attestations/Sparse/Earned.antt =====
-- What a sparse scan (src/scanner/attestations/sparse.rs) that succeeds has established of each duty.
use dabeacon_indexer.Prelude.{
  ◌||◌, not, ℕ, Bool, true, false, String, List, [], ◌∷◌, contains, Option, HashMap, lookup,
  nat_key, ◌⊎◌, ◌≡◌,
}
use dabeacon_indexer.Chain.{ChainSpec}
use dabeacon_indexer.Beacon.Types.{AttesterDuty, ValidatorAttestationReward}
use dabeacon_indexer.Beacon.Node.{BeaconNode}
use dabeacon_indexer.Store.Writes.{Write, duty}
use dabeacon_indexer.Scanner.Attestations.{AttestationInclusion}
use dabeacon_indexer.Scanner.Attestations.Committees.{CommitteeMap}
use dabeacon_indexer.Scanner.Attestations.Sparse.{is_some, sparse_columns, has_positive}
use dabeacon_indexer.Scanner.Attestations.Sparse.Settled.{IsSettled}
use dabeacon_indexer.Scanner.Attestations.Sparse.Epoch.{sparse_row}

module _ (spec : ChainSpec) (hex_decode : String → Option (List ℕ)) (node : BeaconNode) (epoch : ℕ)
    (scan_validators : List ℕ) (finalized : Bool) where
  -- Of what was found for a duty: its window is settled, and no positive reward goes without an
  -- inclusion.
  abbrev pub IsEarned :
      CommitteeMap
      → HashMap ℕ ValidatorAttestationReward
      → AttesterDuty
      → Option (AttestationInclusion × ℕ)
      → Type 0
  IsEarned committee_map rewards assigned found =
      IsSettled spec hex_decode node.get_block node.get_block_root assigned epoch committee_map
        found
      × ((is_some found || not (has_positive (lookup assigned.validator_index rewards))) ≡ true)

  -- The row of what was found.
  abbrev pub earned_row :
      HashMap ℕ ValidatorAttestationReward
      → AttesterDuty
      → Option (AttestationInclusion × ℕ)
      → Write
  earned_row rewards assigned found =
      duty (assigned.validator_index, epoch)
        (sparse_columns assigned
          (sparse_row assigned (lookup assigned.validator_index rewards) found) finalized)

  -- The writes are, for each tracked duty in order, the row of what was found for it.
  pub AreEarned :
      CommitteeMap → HashMap ℕ ValidatorAttestationReward → List AttesterDuty → List Write → Type 0
  AreEarned committee_map rewards [] written = written ≡ []
  AreEarned committee_map rewards (assigned ∷ duties) written =
      ((contains scan_validators assigned.validator_index ≡ false)
        × AreEarned committee_map rewards duties written)
      ⊎ ((contains scan_validators assigned.validator_index ≡ true)
          × (found : Option (AttestationInclusion × ℕ)) × IsEarned committee_map rewards assigned
              found
          × (later : List Write) × (written ≡ earned_row rewards assigned found ∷ later)
          × AreEarned committee_map rewards duties later)
