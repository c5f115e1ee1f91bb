-- ===== src/Scanner/Attestations/Sparse/Examples.antt =====
-- A sparse and a dense scan of a short chain: epochs of two slots, of which the second one's first
-- slot has the duty, slot 3 is skipped and the block of slot 4 includes the vote.
use dabeacon_indexer.Prelude.{
  ℕ, ◌≤◌, ◌<◌, ◌==◌, if◌then◌else◌, true, ◌||◌, contains, contains_key, lookup, insert, List, [],
  ◌∷◌, Option, none, some, HashMap, nat_key, pos, ◌≡◌, ◌↔◌, refl, arith,
}
use dabeacon_indexer.Error.{ok, err, for_each, beacon_data_unavailable}
use dabeacon_indexer.Chain.{ChainSpec, epoch_start_slot, slot_to_epoch}
use dabeacon_indexer.Beacon.Types.{
  BlockRoot, Checkpoint, PreElectraAttestation, SignedBeaconBlock, phase0, Committee, AttesterDuty,
  ValidatorAttestationReward, attestations,
}
use dabeacon_indexer.Beacon.Node.{BeaconNode}
use dabeacon_indexer.Scanner.Bits.Examples.{hex_decode}
use dabeacon_indexer.Scanner.Attestations.{
  AttestationInclusion, inclusion_delay, effective_inclusion_delay,
}
use dabeacon_indexer.Scanner.Attestations.Committees.{CommitteeMap, resolve_pre_electra_committees}
use dabeacon_indexer.Scanner.Attestations.Roots.{root_at_or_before, search_back}
use dabeacon_indexer.Scanner.Bits.{
  trim_start_0x, decode_bitlist, bitlist_bits, split_last, bits_from, byte_bits, leading_zeros,
}
use dabeacon_indexer.Scanner.Attestations.Decode.{
  extract_attestation_inclusions, process_resolved_attestation, record_committee_inclusions,
  compute_vote_correctness, process_pre_electra_attestation,
}
use dabeacon_indexer.Scanner.Attestations.Sparse.{
  probe, probe_slots, scan_forward_for_inclusion, derive_sparse_row,
}
use dabeacon_indexer.Scanner.Attestations.Sparse.Settled.{
  IsSettled, scan_forward_for_inclusion-settles,
}
use dabeacon_indexer.Scanner.Attestations.RootMap.{
  carry_roots, fetch_roots, root_before, build_block_root_map,
}
use dabeacon_indexer.Scanner.Attestations.RootMap.Carry.{IsLast}
use dabeacon_indexer.Scanner.Attestations.RootMap.Complete.{
  blocks_from, build_block_root_map-IsLast,
}
use dabeacon_indexer.Scanner.Attestations.Sparse.Delay.{derive_sparse_row-agree}

abbrev pub short_spec : ChainSpec
short_spec = record {
  slots_per_epoch = 2;
  seconds_per_slot = 12;
  sync_committee_size = 1;
  max_committees_per_slot = 1;
  altair_fork_epoch = 9;
  genesis_time = 0;
}

abbrev checkpoint : Checkpoint
checkpoint = record { epoch = 1; root = "a" }

abbrev vote : PreElectraAttestation
vote = record {
  aggregation_bits = "0x0d";
  vote = record {
    slot = 2;
    index = 0;
    beacon_block_root = "a";
    source = checkpoint;
    target = checkpoint;
  };
}

abbrev including : SignedBeaconBlock
including = phase0 (record {
  slot = 4;
  proposer_index = 1;
  parent_root = "a";
  state_root = "s";
  body = record { attestations = vote ∷ [] };
})

abbrev assigned : AttesterDuty
assigned = record {
  validator_index = 7;
  committee_index = 0;
  validator_committee_index = 2;
  slot = 2;
}

abbrev reward : ValidatorAttestationReward
reward = record {
  validator_index = 7;
  head = pos 1;
  target = pos 2;
  source = pos 3;
  inclusion_delay = none;
  inactivity = none;
}

abbrev committees : List Committee
committees = record { index = 0; slot = 2; validators = 5 ∷ 6 ∷ 7 ∷ [] } ∷ []

abbrev pub node : BeaconNode
node = record {
  get_block = λ slot. if slot == 4 then ok (some including) else ok none;
  get_block_root =
      λ slot. if slot == 1 then ok (some "a") else if slot == 4 then ok (some "c") else ok none;
  get_committees = λ epoch. ok committees;
  get_attester_duties = λ epoch validators. ok (assigned ∷ []);
  get_attestation_rewards = λ epoch validators. ok (reward ∷ []);
  get_current_justified = λ slot. ok checkpoint;
  get_proposer_duties = λ epoch. ok [];
  get_block_rewards = λ slot. err beacon_data_unavailable;
  get_sync_duties = λ epoch validators. ok [];
  get_sync_committee = λ epoch. ok [];
  get_sync_committee_rewards = λ slot validators. ok [];
}

abbrev inclusion : AttestationInclusion
inclusion = record {
  inclusion_slot = 4;
  inclusion_delay = 2;
  source_correct = true;
  target_correct = true;
  head_correct = true;
}

abbrev committee_map : CommitteeMap
committee_map = ((2, 0), 5 ∷ 6 ∷ 7 ∷ []) ∷ []

scanned :
    scan_forward_for_inclusion short_spec hex_decode node.get_block node.get_block_root assigned 1
      committee_map
    ≡ ok (some (inclusion, 1))
unfolding scan_forward_for_inclusion root_at_or_before search_back epoch_start_slot probe_slots
    probe extract_attestation_inclusions attestations for_each slot_to_epoch decode_bitlist
    hex_decode trim_start_0x bitlist_bits split_last resolve_pre_electra_committees lookup insert
    bits_from byte_bits leading_zeros process_resolved_attestation contains_key inclusion_delay
    record_committee_inclusions compute_vote_correctness process_pre_electra_attestation
scanned = refl

scan_forward_for_inclusion-settles_example :
    IsSettled short_spec hex_decode node.get_block node.get_block_root assigned 1 committee_map
      (some (inclusion, 1))
scan_forward_for_inclusion-settles_example =
    scan_forward_for_inclusion-settles short_spec hex_decode node.get_block node.get_block_root
      assigned 1 committee_map (some (inclusion, 1)) scanned

-- Slots 3 is the only one between the duty's and the inclusion's.
missed : (t : ℕ) → 2 < t → t < 4 → (contains (3 ∷ []) t ≡ true) ↔ (node.get_block t ≡ ok none)
missed t a b = (λ h. ground arith, λ h. ground arith)

derive_sparse_row-agree_example :
    let effective = effective_inclusion_delay 2 4 2 (3 ∷ []) in
    ((derive_sparse_row assigned (some reward) (some (4, 1))).effective_inclusion_delay
      ≡ some effective)
    × (1 ≤ effective)
    × (effective ≤ 2)
derive_sparse_row-agree_example =
    derive_sparse_row-agree short_spec hex_decode node.get_block node.get_block_root assigned 1
      committee_map (some reward) (3 ∷ []) inclusion 1 scanned missed

abbrev block_at : ℕ → Option SignedBeaconBlock
block_at slot = if slot == 4 || slot == 1 then some including else none

without : (s : ℕ) → block_at s ≡ none → node.get_block_root s ≡ ok none
without s h = ground arith

abbrev roots : HashMap ℕ BlockRoot
roots = (4, "c") ∷ (3, "a") ∷ []

built :
    build_block_root_map short_spec node.get_block_root 3
      (blocks_from short_spec node.get_block_root block_at 3 2)
    ≡ ok roots
unfolding build_block_root_map fetch_roots root_before carry_roots search_back lookup insert
    contains_key
built = refl

build_block_root_map-IsLast_example :
    (root : BlockRoot) × (lookup 3 roots ≡ some root) × IsLast node.get_block_root 3 root
build_block_root_map-IsLast_example =
    build_block_root_map-IsLast short_spec node.get_block_root block_at without 3 roots built 3
      (omega arith) (omega arith)
