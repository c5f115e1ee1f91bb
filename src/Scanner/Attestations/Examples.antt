-- ===== src/Scanner/Attestations/Examples.antt =====
-- The attestation scan on one block of concrete attestations.
use dabeacon_indexer.Prelude.{
  ℕ, ◌+◌, ◌-◌, ◌<◌, ◌≤◌, min, true, false, List, [], ◌∷◌, Option, none, some, Bool, All, HashMap,
  lookup, insert, contains_key, pair_key, nat_key, ◌≡◌, ◌≢◌, refl, subst, not, contains, arith,
}
use dabeacon_indexer.Error.{for_each, ok, panic}
use dabeacon_indexer.Chain.{mainnet, epoch_start_slot, wrap64, slot_to_epoch}
use dabeacon_indexer.Beacon.Types.{
  BlockRoot, Checkpoint, AttestationData, Attestation, PreElectraAttestation, SignedBeaconBlock,
  phase0, attestations,
}
use dabeacon_indexer.Scanner.Bits.{
  decode_bitlist, decode_bitvector, trim_start_0x, bitlist_bits, split_last, byte_bits, bits_from,
  leading_zeros,
}
use dabeacon_indexer.Scanner.Bits.Examples.{hex_decode}
use dabeacon_indexer.Scanner.Attestations.{
  VoteContext, AssignedCommittee, AttestationInclusion, inclusion_delay, effective_inclusion_delay,
}
use dabeacon_indexer.Scanner.Attestations.Committees.{
  CommitteeMap, select_committees, resolve_electra_committees, resolve_pre_electra_committees,
}
use dabeacon_indexer.Scanner.Attestations.Committees.Layout.{
  IsLaidOut, IsKnown, resolve_electra-layout,
}
use dabeacon_indexer.Scanner.Attestations.Decode.{
  Inclusions, extract_attestation_inclusions, process_pre_electra_attestation,
  process_resolved_attestation, record_committee_inclusions, compute_vote_correctness,
  collect_inclusions_from_blocks,
}
use dabeacon_indexer.Scanner.Attestations.Decode.Resolved.{first}
use dabeacon_indexer.Scanner.Attestations.Decode.Earliest.{seen_in_block, lookup-collect_inclusions}
use dabeacon_indexer.Scanner.Attestations.Decode.Safety.{collect_inclusions-ne-panic}
use dabeacon_indexer.Scanner.Attestations.Delay.{live_effective_delay, effective_delay-agree}
use dabeacon_indexer.Scanner.Attestations.Ancestry.{carry_forward, live_vote_context, IsLatest}
use dabeacon_indexer.Scanner.Attestations.Ancestry.Live.{live_vote_context-IsLatest}

abbrev committees : CommitteeMap
committees = ((33, 0), 7 ∷ 8 ∷ 9 ∷ []) ∷ ((33, 2), 4 ∷ 5 ∷ []) ∷ []

abbrev checkpoint : Checkpoint
checkpoint = record { epoch = 1; root = "a" }

abbrev vote_of : BlockRoot → AttestationData
vote_of head = record {
  slot = 33;
  index = 0;
  beacon_block_root = head;
  source = checkpoint;
  target = checkpoint;
}

-- Members 0 and 2 of committee 0.
abbrev right_vote : PreElectraAttestation
right_vote = record { aggregation_bits = "0x0d"; vote = vote_of "b" }

-- All members, for another head.
abbrev wrong_vote : PreElectraAttestation
wrong_vote = record { aggregation_bits = "0x0f"; vote = vote_of "c" }

abbrev block : SignedBeaconBlock
block = phase0 (record {
  slot = 35;
  proposer_index = 1;
  parent_root = "b";
  state_root = "s";
  body = record { attestations = right_vote ∷ wrong_vote ∷ [] };
})

abbrev blocks : List (ℕ × Option SignedBeaconBlock)
blocks = (34, none) ∷ (35, some block) ∷ []

abbrev context : VoteContext
context = record {
  block_roots = (33, "b") ∷ [];
  target_root = "a";
  target_epoch = 1;
  source = none;
}

abbrev included : Bool → AttestationInclusion
included head = record {
  inclusion_slot = 35;
  inclusion_delay = 2;
  source_correct = true;
  target_correct = true;
  head_correct = head;
}

abbrev inclusions : Inclusions
inclusions = (7, included true) ∷ (8, included false) ∷ []

-- The first of the two votes counts for validator 7.
collected :
    collect_inclusions_from_blocks mainnet hex_decode blocks committees (7 ∷ 8 ∷ []) context
    ≡ ok inclusions
unfolding collect_inclusions_from_blocks for_each extract_attestation_inclusions attestations
    slot_to_epoch decode_bitlist hex_decode trim_start_0x bitlist_bits split_last
    resolve_pre_electra_committees lookup byte_bits bits_from leading_zeros
    process_resolved_attestation inclusion_delay record_committee_inclusions
    compute_vote_correctness insert contains_key process_pre_electra_attestation
collected = refl

lookup-collect_inclusions_example :
    lookup 7 inclusions
    ≡ first (seen_in_block mainnet hex_decode (7 ∷ 8 ∷ []) committees context 7) blocks
lookup-collect_inclusions_example =
    lookup-collect_inclusions mainnet hex_decode (7 ∷ 8 ∷ []) committees context 7 blocks inclusions
      collected

collect_inclusions-ne-panic_example :
    collect_inclusions_from_blocks mainnet hex_decode blocks committees (7 ∷ 8 ∷ []) context ≢ panic
collect_inclusions-ne-panic_example =
    collect_inclusions-ne-panic mainnet hex_decode blocks committees (7 ∷ 8 ∷ []) context

-- The committees 0 and 2 of slot 33, with five bits together.
abbrev electra_vote : Attestation
electra_vote = record {
  aggregation_bits = "0x35";
  vote = vote_of "b";
  committee_bits = "0x0500000000000000";
}

abbrev assigned : List AssignedCommittee
assigned =
    record { index = 0; validators = 7 ∷ 8 ∷ 9 ∷ []; bit_offset = 0 }
    ∷ record { index = 2; validators = 4 ∷ 5 ∷ []; bit_offset = 3 }
    ∷ []

resolve_electra-layout_example :
    IsLaidOut 0 assigned 5
    × All (IsKnown committees 33) assigned
    × (assigned ≢ [])
    × (electra_vote.vote.index ≡ 0)
unfolding resolve_electra_committees select_committees decode_bitvector hex_decode trim_start_0x
    byte_bits bits_from lookup
resolve_electra-layout_example =
    resolve_electra-layout mainnet hex_decode electra_vote committees 5 assigned refl

-- Slot 34 is missed between the duty at 33 and the inclusion at 35.
abbrev present : HashMap ℕ BlockRoot
present = (33, "b") ∷ (35, "d") ∷ []

gap : (s : ℕ) → 33 < s → s < 35 → contains (34 ∷ []) s ≡ not (contains_key s present)
unfolding contains_key lookup
gap s after before =
    subst (λ (t : ℕ). contains (34 ∷ []) t ≡ not (contains_key t present))
      (let e : 34 ≡ s = omega arith in e) refl

effective_delay-agree_example :
    (effective_inclusion_delay 33 35 (35 - 33) (34 ∷ []) ≡ live_effective_delay present 33 35)
    × (1 ≤ live_effective_delay present 33 35)
    × (live_effective_delay present 33 35 ≤ 35 - 33)
unfolding contains_key lookup
effective_delay-agree_example = effective_delay-agree 33 35 (34 ∷ []) present (omega arith) refl gap

-- The ancestry that the live scan has resolved; slot 64 starts epoch 2.
abbrev resolved : HashMap ℕ BlockRoot
resolved = (63, "a") ∷ (65, "b") ∷ []

abbrev live_context : VoteContext
live_context = record {
  block_roots = (64, "a") ∷ (65, "b") ∷ (66, "b") ∷ [];
  target_root = "a";
  target_epoch = 2;
  source = none;
}

live_vote_context-IsLatest_example :
    IsLatest (λ t. lookup t resolved) (epoch_start_slot mainnet 2) "a"
    × ((q : ℕ)
        → epoch_start_slot mainnet 2 ≤ q
        → q < min 67 (epoch_start_slot mainnet (wrap64 (2 + 1)))
        → (r : BlockRoot) × (lookup q live_context.block_roots ≡ some r)
          × IsLatest (λ t. lookup t resolved) q r)
unfolding live_vote_context carry_forward epoch_start_slot lookup insert
live_vote_context-IsLatest_example =
    live_vote_context-IsLatest mainnet 2 67 resolved live_context (refl, (refl, tt)) refl
