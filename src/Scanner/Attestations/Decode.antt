-- ===== src/Scanner/Attestations/Decode.antt =====
-- src/scanner/attestations/decode.rs: from a block's attestations to the inclusions of the
-- tracked validators.
pub mod Reference
pub mod Resolved
pub mod Earliest
pub mod Slots
pub mod Safety
use dabeacon_indexer.Prelude.{
  ℕ, ◌+◌, ◌==◌, if◌then◌else◌, Bool, true, false, ◌&&◌, not, String, str_eq, List, [], ◌∷◌, Option,
  none, some, length, get_elem?, contains, HashMap, lookup, insert, contains_key, nat_key, pair_key,
}
use dabeacon_indexer.Error.{Result, ok, ok_or, index, for_each, ◌>>=◌, inconsistent_beacon_data}
use dabeacon_indexer.Chain.{ChainSpec, slot_to_epoch}
use dabeacon_indexer.Beacon.Types.{
  AttestationData, Checkpoint, PreElectraAttestation, Attestation, Attestations, pre_electra,
  electra, SignedBeaconBlock, attestations,
}
use dabeacon_indexer.Scanner.Bits.{decode_bitlist}
use dabeacon_indexer.Scanner.Attestations.Committees.{
  CommitteeMap, resolve_pre_electra_committees, resolve_electra_committees,
}
use dabeacon_indexer.Scanner.Attestations.{
  VoteContext, AttestationInclusion, VoteMarks, AssignedCommittee, inclusion_delay,
}

-- From a validator to its inclusion.
abbrev pub Inclusions : Type 0
Inclusions = HashMap ℕ AttestationInclusion

pub source_matches : AttestationData → Option Checkpoint → Bool
source_matches vote none = true
source_matches vote (some source) =
    vote.source.epoch == source.epoch && str_eq vote.source.root source.root

unfoldable pub compute_vote_correctness : AttestationData → VoteContext → Result VoteMarks
unfolding source_matches
compute_vote_correctness vote ctx = do
  canonical_head_root ← ok_or inconsistent_beacon_data (lookup vote.slot ctx.block_roots)
  ok (record {
    head_correct = str_eq vote.beacon_block_root canonical_head_root;
    target_correct =
        vote.target.epoch == ctx.target_epoch && str_eq vote.target.root ctx.target_root;
    source_correct = source_matches vote ctx.source;
  })

-- The body of the loop over a committee: one validator, whose bit stands at `bit_pos`.
pub record_member :
    List Bool → List ℕ → AttestationInclusion → ℕ → ℕ → Inclusions → Result Inclusions
record_member agg_bits scan_set inclusion bit_pos validator inclusions =
    if contains scan_set validator
    then (index (get_elem? agg_bits bit_pos) >>= λ set. ok (
        if set && not (contains_key validator inclusions)
        then insert validator inclusion inclusions
        else inclusions))
    else ok inclusions

pub record_members :
    List Bool → List ℕ → AttestationInclusion → ℕ → List ℕ → Inclusions → Result Inclusions
unfolding record_member
record_members agg_bits scan_set inclusion bit_pos [] inclusions = ok inclusions
record_members agg_bits scan_set inclusion bit_pos (validator ∷ rest) inclusions =
    record_member agg_bits scan_set inclusion bit_pos validator inclusions >>= λ next.
    record_members agg_bits scan_set inclusion (bit_pos + 1) rest next

unfoldable pub record_committee_inclusions :
    AssignedCommittee → List Bool → List ℕ → AttestationInclusion → Inclusions → Result Inclusions
unfolding record_members
record_committee_inclusions assigned agg_bits scan_set inclusion inclusions =
    record_members agg_bits scan_set inclusion assigned.bit_offset assigned.validators inclusions

-- `any` over one committee stops at the first tracked validator whose bit is set.
pub any_member : List Bool → List ℕ → ℕ → List ℕ → Result Bool
any_member agg_bits scan_set bit_pos [] = ok false
any_member agg_bits scan_set bit_pos (validator ∷ rest) =
    let later = any_member agg_bits scan_set (bit_pos + 1) rest in
    if contains scan_set validator
    then (index (get_elem? agg_bits bit_pos) >>= λ set. if set then ok true else later)
    else later

pub any_committee : List Bool → List ℕ → List AssignedCommittee → Result Bool
unfolding any_member
any_committee agg_bits scan_set [] = ok false
any_committee agg_bits scan_set (assigned ∷ rest) =
    let later = any_committee agg_bits scan_set rest in
    any_member agg_bits scan_set assigned.bit_offset assigned.validators >>= λ found.
    if found then ok true else later

-- `VoteMarks::default()` where no context is given.
pub vote_marks : AttestationData → Option VoteContext → Result VoteMarks
unfolding compute_vote_correctness
vote_marks vote none =
    ok (record { head_correct = false; target_correct = false; source_correct = false })
vote_marks vote (some ctx) = compute_vote_correctness vote ctx

abbrev pub inclusion_at : ℕ → ℕ → VoteMarks → AttestationInclusion
inclusion_at slot delay marks = record {
  inclusion_slot = slot;
  inclusion_delay = delay;
  source_correct = marks.source_correct;
  target_correct = marks.target_correct;
  head_correct = marks.head_correct;
}

unfoldable pub process_resolved_attestation :
    AttestationData
    → List Bool
    → List AssignedCommittee
    → ℕ
    → List ℕ
    → Option VoteContext
    → Inclusions
    → Result Inclusions
unfolding any_committee vote_marks
process_resolved_attestation vote agg_bits committees inclusion_slot scan_set ctx inclusions = do
  delay ← inclusion_delay inclusion_slot vote.slot
  tracked ← any_committee agg_bits scan_set committees
  if tracked
      then (do
        marks ← vote_marks vote ctx
        for_each
            (λ found assigned.
              record_committee_inclusions assigned agg_bits scan_set
                (inclusion_at inclusion_slot delay marks) found)
            inclusions committees)
      else ok inclusions

module _ (spec : ChainSpec) (hex_decode : String → Option (List ℕ)) where
  unfoldable pub process_pre_electra_attestation :
      ℕ
      → ℕ
      → CommitteeMap
      → List ℕ
      → Option VoteContext
      → Inclusions
      → PreElectraAttestation
      → Result Inclusions
  process_pre_electra_attestation inclusion_slot target_epoch committee_map validators ctx
        inclusions att =
      if slot_to_epoch spec att.vote.slot == target_epoch
      then (do
        agg_bits ← decode_bitlist hex_decode att.aggregation_bits
        committees ← resolve_pre_electra_committees att committee_map (length agg_bits)
        process_resolved_attestation att.vote agg_bits committees inclusion_slot validators ctx
            inclusions)
      else ok inclusions

  unfoldable pub process_electra_attestation :
      ℕ
      → ℕ
      → CommitteeMap
      → List ℕ
      → Option VoteContext
      → Inclusions
      → Attestation
      → Result Inclusions
  process_electra_attestation inclusion_slot target_epoch committee_map validators ctx inclusions
        att =
      if slot_to_epoch spec att.vote.slot == target_epoch
      then (do
        agg_bits ← decode_bitlist hex_decode att.aggregation_bits
        committees ← resolve_electra_committees spec hex_decode att committee_map (length agg_bits)
        process_resolved_attestation att.vote agg_bits committees inclusion_slot validators ctx
            inclusions)
      else ok inclusions

  pub extract_from :
      ℕ
      → ℕ
      → CommitteeMap
      → List ℕ
      → Option VoteContext
      → Inclusions
      → Attestations
      → Result Inclusions
  unfolding process_pre_electra_attestation process_electra_attestation
  extract_from inclusion_slot target_epoch committee_map validators ctx inclusions
        (pre_electra atts) =
      for_each
        (process_pre_electra_attestation inclusion_slot target_epoch committee_map validators ctx)
        inclusions atts
  extract_from inclusion_slot target_epoch committee_map validators ctx inclusions (electra atts) =
      for_each
        (process_electra_attestation inclusion_slot target_epoch committee_map validators ctx)
        inclusions atts

  unfoldable pub extract_attestation_inclusions :
      SignedBeaconBlock
      → ℕ
      → ℕ
      → CommitteeMap
      → List ℕ
      → Option VoteContext
      → Inclusions
      → Result Inclusions
  unfolding extract_from
  extract_attestation_inclusions block inclusion_slot target_epoch committee_map validators ctx
        inclusions =
      extract_from inclusion_slot target_epoch committee_map validators ctx inclusions
        (attestations block)

  pub collect_from_block :
      CommitteeMap
      → List ℕ
      → VoteContext
      → Inclusions
      → ℕ × Option SignedBeaconBlock
      → Result Inclusions
  collect_from_block committee_map validators ctx inclusions (slot, none) = ok inclusions
  collect_from_block committee_map validators ctx inclusions (slot, some block) =
      extract_attestation_inclusions block slot ctx.target_epoch committee_map validators (some ctx)
        inclusions

  unfoldable pub collect_inclusions_from_blocks :
      List (ℕ × Option SignedBeaconBlock) → CommitteeMap → List ℕ → VoteContext → Result Inclusions
  unfolding collect_from_block
  collect_inclusions_from_blocks blocks committee_map validators ctx =
      for_each (collect_from_block committee_map validators ctx) [] blocks
