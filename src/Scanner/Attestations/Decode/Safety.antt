-- ===== src/Scanner/Attestations/Decode/Safety.antt =====
-- `agg_bits[bit_pos]` of src/scanner/attestations/decode.rs is never read out of bounds.
use dabeacon_indexer.Prelude.{
  ℕ, ◌+◌, ◌≤◌, ◌==◌, if◌then◌else◌, Bool, true, false, String, List, [], ◌∷◌, Option, none, some,
  length, get_elem?-in_bounds, All, lookup, nat_key, pair_key, ◌≡◌, ◌≢◌, arith, Bool-cases, inl,
  inr,
}
use dabeacon_indexer.Error.{
  Result, ok, panic, for_each, ◌>>=◌, >>=-ne-panic, for_each-ne-panic, ok_or-ne-panic, ok-ne-panic,
  ok_or, inconsistent_beacon_data,
}
use dabeacon_indexer.Chain.{ChainSpec, slot_to_epoch, checked_sub}
use dabeacon_indexer.Beacon.Types.{
  AttestationData, PreElectraAttestation, Attestation, Attestations, pre_electra, electra,
  SignedBeaconBlock, attestations,
}
use dabeacon_indexer.Scanner.Bits.{decode_bitlist}
use dabeacon_indexer.Scanner.Attestations.{
  VoteContext, AttestationInclusion, AssignedCommittee, inclusion_delay,
}
use dabeacon_indexer.Scanner.Attestations.Committees.{CommitteeMap}
use dabeacon_indexer.Scanner.Attestations.Committees.Layout.{
  IsWithin, IsLaidOut, IsLaidOut-IsWithin, resolve_electra-layout, resolve_pre_electra-layout,
}
use dabeacon_indexer.Scanner.Attestations.Committees.Safety.{
  decode_bitlist-ne-panic, resolve_pre_electra-ne-panic, resolve_electra-ne-panic,
}
use dabeacon_indexer.Scanner.Attestations.Decode.{
  Inclusions, record_member, record_members, any_member, any_committee, vote_marks, inclusion_at,
  compute_vote_correctness, process_resolved_attestation, process_pre_electra_attestation,
  process_electra_attestation, extract_from, extract_attestation_inclusions, collect_from_block,
  collect_inclusions_from_blocks, record_committee_inclusions,
}

module _ (agg_bits : List Bool) (scan_set : List ℕ) where
  record_members-ne-panic :
      (inclusion : AttestationInclusion) (bit_pos : ℕ) (ws : List ℕ) (m : Inclusions)
      → bit_pos + length ws ≤ length agg_bits
      → record_members agg_bits scan_set inclusion bit_pos ws m ≢ panic
  unfolding record_members
  record_members-ne-panic inclusion bit_pos [] m fits = λ h. cc
  record_members-ne-panic inclusion bit_pos (w ∷ ws) m fits =
      >>=-ne-panic (record_member agg_bits scan_set inclusion bit_pos w m) _
        (unfold record_member in
          (let there = get_elem?-in_bounds agg_bits bit_pos (omega arith) in
            ground (arith, there.1)))
        (λ next _. record_members-ne-panic inclusion (bit_pos + 1) ws next (omega arith))

  any_member-ne-panic :
      (bit_pos : ℕ) (ws : List ℕ)
      → bit_pos + length ws ≤ length agg_bits
      → any_member agg_bits scan_set bit_pos ws ≢ panic
  unfolding any_member
  any_member-ne-panic bit_pos [] fits = λ h. cc
  any_member-ne-panic bit_pos (w ∷ ws) fits =
      let there = get_elem?-in_bounds agg_bits bit_pos (omega arith) in
      let later = any_member-ne-panic (bit_pos + 1) ws (omega arith) in
      ground (arith, there.1, later)

  any_committee-ne-panic :
      (cs : List AssignedCommittee)
      → All (IsWithin (length agg_bits)) cs
      → any_committee agg_bits scan_set cs ≢ panic
  unfolding any_committee
  any_committee-ne-panic [] fits = λ h. cc
  any_committee-ne-panic (c ∷ cs) fits =
      >>=-ne-panic (any_member agg_bits scan_set c.bit_offset c.validators) _
        (any_member-ne-panic c.bit_offset c.validators fits.0)
        (λ found _. let later = any_committee-ne-panic cs fits.1 in ground (arith, later))

  record_committees-ne-panic :
      (inclusion : AttestationInclusion) (cs : List AssignedCommittee) (m : Inclusions)
      → All (IsWithin (length agg_bits)) cs
      → for_each
          (λ found assigned. record_committee_inclusions assigned agg_bits scan_set inclusion found)
          m
          cs
        ≢ panic
  unfolding for_each record_committee_inclusions
  record_committees-ne-panic inclusion [] m fits = λ h. cc
  record_committees-ne-panic inclusion (c ∷ cs) m fits =
      >>=-ne-panic (record_members agg_bits scan_set inclusion c.bit_offset c.validators m) _
        (record_members-ne-panic inclusion c.bit_offset c.validators m fits.0)
        (λ next _. record_committees-ne-panic inclusion cs next fits.1)

vote_marks-ne-panic :
    (vote : AttestationData) (ctx : Option VoteContext) → vote_marks vote ctx ≢ panic
unfolding vote_marks compute_vote_correctness
vote_marks-ne-panic vote none = λ h. cc
vote_marks-ne-panic vote (some ctx) =
    >>=-ne-panic (ok_or inconsistent_beacon_data (lookup vote.slot ctx.block_roots)) _
      (ok_or-ne-panic inconsistent_beacon_data (lookup vote.slot ctx.block_roots)) (λ root _ h. cc)

process_resolved-ne-panic :
    (vote : AttestationData) (agg_bits : List Bool) (cs : List AssignedCommittee) (slot : ℕ)
    (scan_set : List ℕ) (ctx : Option VoteContext) (m : Inclusions)
    → All (IsWithin (length agg_bits)) cs
    → process_resolved_attestation vote agg_bits cs slot scan_set ctx m ≢ panic
unfolding process_resolved_attestation inclusion_delay
process_resolved-ne-panic vote agg_bits cs slot scan_set ctx m fits =
    >>=-ne-panic (ok_or inconsistent_beacon_data (checked_sub slot vote.slot)) _
      (ok_or-ne-panic inconsistent_beacon_data (checked_sub slot vote.slot))
      (λ delay _.
        >>=-ne-panic (any_committee agg_bits scan_set cs) _
          (any_committee-ne-panic agg_bits scan_set cs fits) (λ tracked _. branch delay tracked))
  where
    branch :
        (delay : ℕ) (tracked : Bool)
        → (if tracked
            then (vote_marks vote ctx >>= λ marks.
                for_each
                  (λ found assigned.
                    record_committee_inclusions assigned agg_bits scan_set
                      (inclusion_at slot delay marks)
                      found)
                  m
                  cs)
            else ok m)
          ≢ panic
    branch delay true =
        >>=-ne-panic (vote_marks vote ctx) _ (vote_marks-ne-panic vote ctx)
          (λ marks _. record_committees-ne-panic agg_bits scan_set _ cs m fits)
    branch delay false = ok-ne-panic m

module _ (spec : ChainSpec) (hex_decode : String → Option (List ℕ)) where
  module _ (slot target_epoch : ℕ) (committee_map : CommitteeMap) (scan_set : List ℕ)
      (ctx : Option VoteContext) where
    resolved_after :
        (vote : AttestationData) (aggregation_bits : String)
        (resolve : ℕ → Result (List AssignedCommittee)) (m : Inclusions)
        → ((n : ℕ) → resolve n ≢ panic)
        → ((n : ℕ) (cs : List AssignedCommittee) → resolve n ≡ ok cs → IsLaidOut 0 cs n)
        → (decode_bitlist hex_decode aggregation_bits >>= λ agg_bits.
            resolve (length agg_bits) >>= λ committees.
            process_resolved_attestation vote agg_bits committees slot scan_set ctx m)
          ≢ panic
    resolved_after vote aggregation_bits resolve m calm laid =
        >>=-ne-panic (decode_bitlist hex_decode aggregation_bits) _
          (decode_bitlist-ne-panic hex_decode aggregation_bits)
          (λ agg_bits _.
            >>=-ne-panic (resolve (length agg_bits)) _ (calm (length agg_bits)) (λ cs e.
              process_resolved-ne-panic vote agg_bits cs slot scan_set ctx m
                (IsLaidOut-IsWithin 0 cs (length agg_bits) (laid (length agg_bits) cs e))))

    process_pre_electra-ne-panic :
        (m : Inclusions) (att : PreElectraAttestation)
        → process_pre_electra_attestation spec hex_decode slot target_epoch committee_map scan_set
            ctx m att
          ≢ panic
    unfolding process_pre_electra_attestation
    process_pre_electra-ne-panic m att =
        elim (Bool-cases (slot_to_epoch spec att.vote.slot == target_epoch)) [
          | inl e ↦ rw e (
              resolved_after att.vote att.aggregation_bits _ m
                (resolve_pre_electra-ne-panic att committee_map)
                (resolve_pre_electra-layout att committee_map))
          | inr e ↦ rw e (ok-ne-panic m)
        ]

    process_electra-ne-panic :
        (m : Inclusions) (att : Attestation)
        → process_electra_attestation spec hex_decode slot target_epoch committee_map scan_set ctx m
            att
          ≢ panic
    unfolding process_electra_attestation
    process_electra-ne-panic m att =
        elim (Bool-cases (slot_to_epoch spec att.vote.slot == target_epoch)) [
          | inl e ↦ rw e (
              resolved_after att.vote att.aggregation_bits _ m
                (resolve_electra-ne-panic spec hex_decode att committee_map)
                (λ n cs h. (resolve_electra-layout spec hex_decode att committee_map n cs h).0))
          | inr e ↦ rw e (ok-ne-panic m)
        ]

    extract_from-ne-panic :
        (m : Inclusions) (atts : Attestations)
        → extract_from spec hex_decode slot target_epoch committee_map scan_set ctx m atts ≢ panic
    unfolding extract_from
    extract_from-ne-panic m (pre_electra atts) =
        for_each-ne-panic _ process_pre_electra-ne-panic m atts
    extract_from-ne-panic m (electra atts) = for_each-ne-panic _ process_electra-ne-panic m atts

  collect_from_block-ne-panic :
      (committee_map : CommitteeMap) (scan_set : List ℕ) (ctx : VoteContext) (m : Inclusions)
      (entry : ℕ × Option SignedBeaconBlock)
      → collect_from_block spec hex_decode committee_map scan_set ctx m entry ≢ panic
  unfolding collect_from_block extract_attestation_inclusions
  collect_from_block-ne-panic committee_map scan_set ctx m (slot, none) = ok-ne-panic m
  collect_from_block-ne-panic committee_map scan_set ctx m (slot, some block) =
      extract_from-ne-panic slot ctx.target_epoch committee_map scan_set (some ctx) m
        (attestations block)

  -- Whatever the blocks, the committees and the tracked validators are, the scan of the blocks
  -- returns inclusions or an error: no index into `aggregation_bits` is out of bounds.
  pub collect_inclusions-ne-panic :
      (blocks : List (ℕ × Option SignedBeaconBlock)) (committee_map : CommitteeMap)
      (scan_set : List ℕ) (ctx : VoteContext)
      → collect_inclusions_from_blocks spec hex_decode blocks committee_map scan_set ctx ≢ panic
  unfolding collect_inclusions_from_blocks
  collect_inclusions-ne-panic blocks committee_map scan_set ctx =
      for_each-ne-panic _ (collect_from_block-ne-panic committee_map scan_set ctx) [] blocks
