-- ===== src/Beacon/Node.antt =====
-- What a beacon node answers to the requests of src/beacon_client that a scan makes, with an error for
-- a request that fails. Of a block's answer the finality flag is left out, which no scan reads; of
-- the finality checkpoints a scan reads the justified one; of the sync duties, who has one.
use dabeacon_indexer.Prelude.{ℕ, List, Option}
use dabeacon_indexer.Error.{Result}
use dabeacon_indexer.Beacon.Types.{
  BlockRoot, Checkpoint, Committee, AttesterDuty, ProposerDuty, ValidatorAttestationReward,
  SyncCommitteeReward, BlockRewards, SignedBeaconBlock,
}

pub record BeaconNode : Type 0 where
  pub get_block : ℕ → Result (Option SignedBeaconBlock)
  pub get_block_root : ℕ → Result (Option BlockRoot)
  pub get_committees : ℕ → Result (List Committee)
  pub get_attester_duties : ℕ → List ℕ → Result (List AttesterDuty)
  pub get_attestation_rewards : ℕ → List ℕ → Result (List ValidatorAttestationReward)
  pub get_current_justified : ℕ → Result Checkpoint
  pub get_proposer_duties : ℕ → Result (List ProposerDuty)
  pub get_block_rewards : ℕ → Result BlockRewards
  pub get_sync_duties : ℕ → List ℕ → Result (List ℕ)
  pub get_sync_committee : ℕ → Result (List ℕ)
  pub get_sync_committee_rewards : ℕ → List ℕ → Result (List SyncCommitteeReward)
