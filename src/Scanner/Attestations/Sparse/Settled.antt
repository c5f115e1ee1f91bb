-- ===== src/Scanner/Attestations/Sparse/Settled.antt =====
-- What `scan_forward_for_inclusion` of src/scanner/attestations/sparse.rs establishes.
use dabeacon_indexer.Prelude.{
  ℕ, ◌+◌, ◌-◌, String, List, [], ◌∷◌, Option, some, nat_key, ◌≡◌, sym, ◌∙◌,
}
use dabeacon_indexer.Error.{Result, ok, >>=-eq-ok, ok-injective}
use dabeacon_indexer.Chain.{ChainSpec, epoch_start_slot}
use dabeacon_indexer.Beacon.Types.{BlockRoot, AttesterDuty, SignedBeaconBlock}
use dabeacon_indexer.Scanner.Attestations.{VoteContext, AttestationInclusion}
use dabeacon_indexer.Scanner.Attestations.Committees.{CommitteeMap}
use dabeacon_indexer.Scanner.Attestations.Decode.{extract_attestation_inclusions}
use dabeacon_indexer.Scanner.Attestations.Decode.Earliest.{lookup-extract}
use dabeacon_indexer.Scanner.Attestations.Decode.Slots.{seen_in_block-IsOfSlot}
use dabeacon_indexer.Scanner.Attestations.Roots.{root_at_or_before}
use dabeacon_indexer.Scanner.Attestations.Sparse.{
  probe, scan_forward_for_inclusion, sparse_context, last_slot,
}
use dabeacon_indexer.Scanner.Attestations.Sparse.First.{Settles, probe_slots-Finds, Finds-Settles}

probe-slot :
    (spec : ChainSpec) (hex_decode : String → Option (List ℕ)) (context : VoteContext)
    (committee_map : CommitteeMap) (validator s : ℕ) (block : SignedBeaconBlock)
    (inc : AttestationInclusion)
    → probe spec hex_decode context committee_map validator s block ≡ ok (some inc)
    → inc.inclusion_slot ≡ s
unfolding probe
probe-slot spec hex_decode context committee_map validator s block inc h =
    let found =
      >>=-eq-ok
        (extract_attestation_inclusions spec hex_decode block s context.target_epoch committee_map
          (validator ∷ []) (some context) [])
        _ h in
    seen_in_block-IsOfSlot spec hex_decode (validator ∷ []) committee_map context validator s block
      inc
      (sym (
          lookup-extract spec hex_decode (validator ∷ []) committee_map context validator s block
            found.0 found.1)
        ∙ ok-injective found.2)

module _ (spec : ChainSpec) (hex_decode : String → Option (List ℕ))
    (get_block : ℕ → Result (Option SignedBeaconBlock))
    (get_block_root : ℕ → Result (Option BlockRoot)) (duty : AttesterDuty) (target_epoch : ℕ)
    (committee_map : CommitteeMap) where
  -- The votes are compared with the roots at or before the epoch's first slot and the duty's.
  pub record IsSettled (found : Option (AttestationInclusion × ℕ)) : Type 0 where
    pub target_root : BlockRoot
    pub head_root : BlockRoot
    pub target_found :
        root_at_or_before spec get_block_root (epoch_start_slot spec target_epoch) ≡ ok target_root
    pub head_found : root_at_or_before spec get_block_root duty.slot ≡ ok head_root
    pub settles :
        Settles get_block
          (probe spec hex_decode
            (sparse_context target_epoch duty.slot target_root head_root)
            committee_map
            duty.validator_index)
          duty.slot
          (last_slot spec target_epoch)
          found

  -- A scan that succeeds has found the first block of the window whose attestations include the
  -- validator, and counted the slots before it without a block; or it found none, and every slot of
  -- the window was answered for, without a block or with one that does not include the validator.
  pub scan_forward_for_inclusion-settles :
      (found : Option (AttestationInclusion × ℕ))
      → scan_forward_for_inclusion spec hex_decode get_block get_block_root duty target_epoch
          committee_map
        ≡ ok found
      → IsSettled found
  unfolding scan_forward_for_inclusion
  scan_forward_for_inclusion-settles found h =
      let target =
        >>=-eq-ok (root_at_or_before spec get_block_root (epoch_start_slot spec target_epoch)) _
          h in
      let head = >>=-eq-ok (root_at_or_before spec get_block_root duty.slot) _ target.2 in
      let probe_at =
        probe spec hex_decode (sparse_context target_epoch duty.slot target.0 head.0) committee_map
          duty.validator_index in
      record {
        target_root = target.0;
        head_root = head.0;
        target_found = target.1;
        head_found = head.1;
        settles =
            Finds-Settles get_block probe_at
              (probe-slot spec hex_decode (sparse_context target_epoch duty.slot target.0 head.0)
                committee_map duty.validator_index)
              duty.slot (last_slot spec target_epoch) found
              (probe_slots-Finds get_block probe_at (last_slot spec target_epoch - duty.slot)
                (duty.slot + 1) 0 found head.2);
      }
