-- ===== src/Beacon/Types.antt =====
-- src/beacon_client/types.rs: blocks, attestations and duties, with the fields that the scanner
-- and the live worker read.
use dabeacon_indexer.Prelude.{ℕ, String, List, map, Option, none, some, ℤ}

-- `Root` is a newtype over `String`.
abbrev pub BlockRoot : Type 0
BlockRoot = String

pub record Checkpoint : Type 0 where
  pub epoch : ℕ
  pub root : BlockRoot

pub record AttestationData : Type 0 where
  pub slot : ℕ
  pub index : ℕ
  pub beacon_block_root : BlockRoot
  pub source : Checkpoint
  pub target : Checkpoint

-- `vote` is the source's field `data`.
pub record PreElectraAttestation : Type 0 where
  pub aggregation_bits : String
  pub vote : AttestationData

pub record Attestation : Type 0 where
  pub aggregation_bits : String
  pub vote : AttestationData
  pub committee_bits : String

pub data Attestations : Type 0 where
  pre_electra : List PreElectraAttestation → Attestations
  electra : List Attestation → Attestations

pub record SyncAggregate : Type 0 where
  pub sync_committee_bits : String

pub record BeaconBlockMessage (B : Type 0) : Type 0 where
  pub slot : ℕ
  pub proposer_index : ℕ
  pub parent_root : BlockRoot
  pub state_root : BlockRoot
  pub body : B

pub record BodyPhase0 : Type 0 where
  pub attestations : List PreElectraAttestation

-- The bodies of Altair to Deneb differ in fields that nothing here reads.
pub record BodyAltair : Type 0 where
  pub attestations : List PreElectraAttestation
  pub sync_aggregate : SyncAggregate

-- Electra and Fulu.
pub record BodyElectra : Type 0 where
  pub attestations : List Attestation
  pub sync_aggregate : SyncAggregate

pub data SignedBeaconBlock : Type 0 where
  phase0 : BeaconBlockMessage BodyPhase0 → SignedBeaconBlock
  altair bellatrix capella deneb : BeaconBlockMessage BodyAltair → SignedBeaconBlock
  electra fulu : BeaconBlockMessage BodyElectra → SignedBeaconBlock

unfoldable pub slot : SignedBeaconBlock → ℕ
slot (phase0 b) = b.slot
slot (altair b) = b.slot
slot (bellatrix b) = b.slot
slot (capella b) = b.slot
slot (deneb b) = b.slot
slot (SignedBeaconBlock.electra b) = b.slot
slot (fulu b) = b.slot

unfoldable pub proposer_index : SignedBeaconBlock → ℕ
proposer_index (phase0 b) = b.proposer_index
proposer_index (altair b) = b.proposer_index
proposer_index (bellatrix b) = b.proposer_index
proposer_index (capella b) = b.proposer_index
proposer_index (deneb b) = b.proposer_index
proposer_index (SignedBeaconBlock.electra b) = b.proposer_index
proposer_index (fulu b) = b.proposer_index

unfoldable pub parent_root : SignedBeaconBlock → BlockRoot
parent_root (phase0 b) = b.parent_root
parent_root (altair b) = b.parent_root
parent_root (bellatrix b) = b.parent_root
parent_root (capella b) = b.parent_root
parent_root (deneb b) = b.parent_root
parent_root (SignedBeaconBlock.electra b) = b.parent_root
parent_root (fulu b) = b.parent_root

unfoldable pub attestations : SignedBeaconBlock → Attestations
attestations (phase0 b) = pre_electra b.body.attestations
attestations (altair b) = pre_electra b.body.attestations
attestations (bellatrix b) = pre_electra b.body.attestations
attestations (capella b) = pre_electra b.body.attestations
attestations (deneb b) = pre_electra b.body.attestations
attestations (SignedBeaconBlock.electra b) = Attestations.electra b.body.attestations
attestations (fulu b) = Attestations.electra b.body.attestations

slots_of : Attestations → List ℕ
slots_of (pre_electra atts) = map (λ a. a.vote.slot) atts
slots_of (Attestations.electra atts) = map (λ a. a.vote.slot) atts

unfoldable pub attestation_slots : SignedBeaconBlock → List ℕ
unfolding slots_of attestations
attestation_slots block = slots_of (attestations block)

-- `None` for a block of Phase 0.
unfoldable pub sync_aggregate : SignedBeaconBlock → Option SyncAggregate
sync_aggregate (phase0 b) = none
sync_aggregate (altair b) = some b.body.sync_aggregate
sync_aggregate (bellatrix b) = some b.body.sync_aggregate
sync_aggregate (capella b) = some b.body.sync_aggregate
sync_aggregate (deneb b) = some b.body.sync_aggregate
sync_aggregate (SignedBeaconBlock.electra b) = some b.body.sync_aggregate
sync_aggregate (fulu b) = some b.body.sync_aggregate

pub record Committee : Type 0 where
  pub index : ℕ
  pub slot : ℕ
  pub validators : List ℕ

pub record AttesterDuty : Type 0 where
  pub validator_index : ℕ
  pub committee_index : ℕ
  pub validator_committee_index : ℕ
  pub slot : ℕ

-- `inclusion_delay` is absent from Altair on.
pub record ValidatorAttestationReward : Type 0 where
  pub validator_index : ℕ
  pub head : ℤ
  pub target : ℤ
  pub source : ℤ
  pub inclusion_delay : Option ℤ
  pub inactivity : Option ℤ

pub record ProposerDuty : Type 0 where
  pub validator_index : ℕ
  pub slot : ℕ

pub record SyncCommitteeReward : Type 0 where
  pub validator_index : ℕ
  pub reward : ℤ

pub record BlockRewards : Type 0 where
  pub proposer_index : ℕ
  pub total : ℕ
  pub attestations : ℕ
  pub sync_aggregate : ℕ
  pub proposer_slashings : ℕ
  pub attester_slashings : ℕ
