-- ===== src/Scanner/Attestations/Decode/Earliest.antt =====
-- The inclusions that src/scanner/attestations/decode.rs collects, against the first attestation,
-- in the order of the blocks, that has the validator's bit set.
use dabeacon_indexer.Prelude.{
  ℕ, ◌==◌, if◌then◌else◌, Bool, String, List, [], Option, none, some, length, lookup, nat_key,
  or_else, or_else-none, ◌≡◌, sym, ap, ◌∙◌, Bool-cases, inl, inr,
}
use dabeacon_indexer.Error.{Result, ok, err, panic, ◌>>=◌, >>=-eq-ok, ok-injective}
use dabeacon_indexer.Chain.{ChainSpec, slot_to_epoch}
use dabeacon_indexer.Beacon.Types.{
  AttestationData, PreElectraAttestation, Attestation, Attestations, pre_electra, electra,
  SignedBeaconBlock, attestations,
}
use dabeacon_indexer.Scanner.Bits.{decode_bitlist}
use dabeacon_indexer.Scanner.Attestations.{VoteContext, AttestationInclusion, AssignedCommittee}
use dabeacon_indexer.Scanner.Attestations.Committees.{
  CommitteeMap, resolve_pre_electra_committees, resolve_electra_committees,
}
use dabeacon_indexer.Scanner.Attestations.Decode.{
  Inclusions, process_resolved_attestation, process_pre_electra_attestation,
  process_electra_attestation, extract_from, extract_attestation_inclusions, collect_from_block,
  collect_inclusions_from_blocks,
}
use dabeacon_indexer.Scanner.Attestations.Decode.Resolved.{
  first, seen_with_bits, lookup-process_resolved, lookup-for_each,
}

module _ (spec : ChainSpec) (hex_decode : String → Option (List ℕ)) (scan_set : List ℕ) (v : ℕ)
    (slot target_epoch : ℕ) (committee_map : CommitteeMap) (ctx : Option VoteContext) where
  unfoldable pub seen_decoded :
      AttestationData
      → (ℕ → Result (List AssignedCommittee))
      → Result (List Bool)
      → Option AttestationInclusion
  seen_decoded vote resolve (ok agg_bits) =
      seen_with_bits scan_set v vote slot ctx agg_bits (resolve (length agg_bits))
  seen_decoded vote resolve (err e) = none
  seen_decoded vote resolve panic = none

  -- What an attestation for the target epoch says of the validator.
  unfoldable pub seen_pre_electra : PreElectraAttestation → Option AttestationInclusion
  seen_pre_electra att =
      if slot_to_epoch spec att.vote.slot == target_epoch
      then seen_decoded att.vote (resolve_pre_electra_committees att committee_map)
          (decode_bitlist hex_decode att.aggregation_bits)
      else none

  unfoldable pub seen_electra : Attestation → Option AttestationInclusion
  seen_electra att =
      if slot_to_epoch spec att.vote.slot == target_epoch
      then seen_decoded att.vote (resolve_electra_committees spec hex_decode att committee_map)
          (decode_bitlist hex_decode att.aggregation_bits)
      else none

  unfoldable pub seen_in : Attestations → Option AttestationInclusion
  unfolding first
  seen_in (pre_electra atts) = first seen_pre_electra atts
  seen_in (electra atts) = first seen_electra atts

  lookup-decoded :
      (vote : AttestationData) (resolve : ℕ → Result (List AssignedCommittee))
      (bits : Result (List Bool)) (m m' : Inclusions)
      → (bits >>= λ agg_bits. resolve (length agg_bits) >>= λ committees.
          process_resolved_attestation vote agg_bits committees slot scan_set ctx m)
        ≡ ok m'
      → lookup v m' ≡ or_else (lookup v m) (seen_decoded vote resolve bits)
  unfolding seen_decoded
  lookup-decoded vote resolve (ok agg_bits) m m' h =
      let cs = >>=-eq-ok (resolve (length agg_bits)) _ h in
      lookup-process_resolved scan_set v vote agg_bits cs.0 slot ctx m m' cs.2
      ∙ ap (λ r. or_else (lookup v m) (seen_with_bits scan_set v vote slot ctx agg_bits r))
          (sym cs.1)
  lookup-decoded vote resolve (err e) m m' h = cc
  lookup-decoded vote resolve panic m m' h = cc

  unchanged : (m m' : Inclusions) → ok m ≡ ok m' → lookup v m' ≡ or_else (lookup v m) none
  unchanged m m' h = ap (lookup v) (sym (ok-injective h)) ∙ sym (or_else-none (lookup v m))

  lookup-pre_electra :
      (m m' : Inclusions) (att : PreElectraAttestation)
      → process_pre_electra_attestation spec hex_decode slot target_epoch committee_map scan_set ctx
          m att
        ≡ ok m'
      → lookup v m' ≡ or_else (lookup v m) (seen_pre_electra att)
  unfolding process_pre_electra_attestation seen_pre_electra
  lookup-pre_electra m m' att h =
      elim (Bool-cases (slot_to_epoch spec att.vote.slot == target_epoch)) [
        | inl e ↦ rw e (lookup-decoded att.vote _ _ m m' (rw e at h))
        | inr e ↦ rw e (unchanged m m' (rw e at h))
      ]

  lookup-electra :
      (m m' : Inclusions) (att : Attestation)
      → process_electra_attestation spec hex_decode slot target_epoch committee_map scan_set ctx m
          att
        ≡ ok m'
      → lookup v m' ≡ or_else (lookup v m) (seen_electra att)
  unfolding process_electra_attestation seen_electra
  lookup-electra m m' att h = elim (Bool-cases (slot_to_epoch spec att.vote.slot == target_epoch)) [
    | inl e ↦ rw e (lookup-decoded att.vote _ _ m m' (rw e at h))
    | inr e ↦ rw e (unchanged m m' (rw e at h))
  ]

  lookup-extract_from :
      (m m' : Inclusions) (atts : Attestations)
      → extract_from spec hex_decode slot target_epoch committee_map scan_set ctx m atts ≡ ok m'
      → lookup v m' ≡ or_else (lookup v m) (seen_in atts)
  unfolding extract_from seen_in
  lookup-extract_from m m' (pre_electra atts) h =
      lookup-for_each v _ seen_pre_electra lookup-pre_electra atts m m' h
  lookup-extract_from m m' (electra atts) h =
      lookup-for_each v _ seen_electra lookup-electra atts m m' h

module _ (spec : ChainSpec) (hex_decode : String → Option (List ℕ)) (scan_set : List ℕ)
    (committee_map : CommitteeMap) (ctx : VoteContext) (v : ℕ) where
  -- What a block of the scanned range says of the validator.
  unfoldable pub seen_in_block : ℕ × Option SignedBeaconBlock → Option AttestationInclusion
  seen_in_block (slot, none) = none
  seen_in_block (slot, some block) =
      seen_in spec hex_decode scan_set v slot ctx.target_epoch committee_map (some ctx)
        (attestations block)

  pub lookup-extract :
      (slot : ℕ) (block : SignedBeaconBlock) (m : Inclusions)
      → extract_attestation_inclusions spec hex_decode block slot ctx.target_epoch committee_map
          scan_set
          (some ctx)
          []
        ≡ ok m
      → lookup v m ≡ seen_in_block (slot, some block)
  unfolding seen_in_block extract_attestation_inclusions lookup
  lookup-extract slot block m h =
      lookup-extract_from spec hex_decode scan_set v slot ctx.target_epoch committee_map (some ctx)
        [] m (attestations block) h

  lookup-collect_from_block :
      (m m' : Inclusions) (entry : ℕ × Option SignedBeaconBlock)
      → collect_from_block spec hex_decode committee_map scan_set ctx m entry ≡ ok m'
      → lookup v m' ≡ or_else (lookup v m) (seen_in_block entry)
  unfolding collect_from_block seen_in_block seen_in extract_attestation_inclusions
  lookup-collect_from_block m m' (slot, none) h =
      ap (lookup v) (sym (ok-injective h)) ∙ sym (or_else-none (lookup v m))
  lookup-collect_from_block m m' (slot, some block) h =
      lookup-extract_from spec hex_decode scan_set v slot ctx.target_epoch committee_map (some ctx)
        m m' (attestations block) h

  -- Where the scan of the blocks succeeds, the inclusion recorded for a validator, or its absence,
  -- is what the first attestation says, in the order of the blocks, that has the validator's bit
  -- set, whatever the other validators' attestations say.
  pub lookup-collect_inclusions :
      (blocks : List (ℕ × Option SignedBeaconBlock)) (m : Inclusions)
      → collect_inclusions_from_blocks spec hex_decode blocks committee_map scan_set ctx ≡ ok m
      → lookup v m ≡ first seen_in_block blocks
  unfolding collect_inclusions_from_blocks lookup
  lookup-collect_inclusions blocks m h =
      lookup-for_each v _ seen_in_block lookup-collect_from_block blocks [] m h
