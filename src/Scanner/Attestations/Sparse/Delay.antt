-- ===== src/Scanner/Attestations/Sparse/Delay.antt =====
-- The effective delay that src/scanner/attestations/sparse.rs stores, and that of the dense scan.
use dabeacon_indexer.Prelude.{
  ℕ, zero, suc, ◌+◌, ◌-◌, ◌≤◌, ◌<◌, Bool, true, String, List, contains, count_by, range, Option,
  none, some, nat_key, ◌≡◌, ◌↔◌, refl, sym, ap, ◌∙◌, arith, Bool-cases, inl, inr,
}
use dabeacon_indexer.Error.{Result, ok, err, panic}
use dabeacon_indexer.Chain.{ChainSpec}
use dabeacon_indexer.Beacon.Types.{
  BlockRoot, AttesterDuty, ValidatorAttestationReward, SignedBeaconBlock,
}
use dabeacon_indexer.Scanner.Attestations.{AttestationInclusion, effective_inclusion_delay}
use dabeacon_indexer.Scanner.Attestations.Committees.{CommitteeMap}
use dabeacon_indexer.Scanner.Attestations.Sparse.{
  probe, scan_forward_for_inclusion, sparse_context, derive_sparse_row,
}
use dabeacon_indexer.Scanner.Attestations.Sparse.First.{is_skipped}
use dabeacon_indexer.Scanner.Attestations.Sparse.Settled.{scan_forward_for_inclusion-settles}

module _ (get_block : ℕ → Result (Option SignedBeaconBlock))
    (probe_at : ℕ → SignedBeaconBlock → Result (Option AttestationInclusion))
    (missed_slots : List ℕ) where
  is_skipped-contains :
      (t : ℕ) (answer : Result (Option SignedBeaconBlock))
      → get_block t ≡ answer
      → (contains missed_slots t ≡ true) ↔ (answer ≡ ok none)
      → contains missed_slots t ≡ is_skipped get_block probe_at t
  is_skipped-contains t (ok none) e h = h.1 refl ∙ rw (e, is_skipped) refl
  is_skipped-contains t (ok (some block)) e h = elim (Bool-cases (contains missed_slots t)) [
    | inl there ↦ cc (h.0 there)
    | inr gone ↦ gone ∙ rw (e, is_skipped) refl
  ]
  is_skipped-contains t (err f) e h = elim (Bool-cases (contains missed_slots t)) [
    | inl there ↦ cc (h.0 there)
    | inr gone ↦ gone ∙ rw (e, is_skipped) refl
  ]
  is_skipped-contains t panic e h = elim (Bool-cases (contains missed_slots t)) [
    | inl there ↦ cc (h.0 there)
    | inr gone ↦ gone ∙ rw (e, is_skipped) refl
  ]

  count_by-same :
      (start n : ℕ)
      → ((t : ℕ)
          → start ≤ t
          → t < start + n
          → contains missed_slots t ≡ is_skipped get_block probe_at t)
      → count_by (contains missed_slots) (range start n)
        ≡ count_by (is_skipped get_block probe_at) (range start n)
  count_by-same start zero h = refl
  count_by-same start (suc n) h =
      let here = h start (omega arith) (omega arith) in
      let later = count_by-same (start + 1) n (λ t a b. h t (omega arith) (omega arith)) in
      ground (arith, here, later)

count_by-range_le : (p : ℕ → Bool) (start n : ℕ) → count_by p (range start n) ≤ n
count_by-range_le p start zero = omega arith
count_by-range_le p start (suc n) = let later = count_by-range_le p (start + 1) n in ground arith

module _ (spec : ChainSpec) (hex_decode : String → Option (List ℕ))
    (get_block : ℕ → Result (Option SignedBeaconBlock))
    (get_block_root : ℕ → Result (Option BlockRoot)) (duty : AttesterDuty) (target_epoch : ℕ)
    (committee_map : CommitteeMap) where
  -- The effective delay that the sparse scan stores for an inclusion it finds is the one that the
  -- dense scan computes for it, where the dense scan's missed slots are those between the duty and
  -- the inclusion that have no block. It is at least 1 and at most the raw delay.
  pub derive_sparse_row-agree :
      (reward : Option ValidatorAttestationReward) (missed_slots : List ℕ)
      (inc : AttestationInclusion) (missed : ℕ)
      → scan_forward_for_inclusion spec hex_decode get_block get_block_root duty target_epoch
          committee_map
        ≡ ok (some (inc, missed))
      → ((t : ℕ)
          → duty.slot < t
          → t < inc.inclusion_slot
          → (contains missed_slots t ≡ true) ↔ (get_block t ≡ ok none))
      → let delay = inc.inclusion_slot - duty.slot in
        let effective = effective_inclusion_delay duty.slot inc.inclusion_slot delay missed_slots in
        ((derive_sparse_row duty reward
            (some (inc.inclusion_slot, missed))).effective_inclusion_delay
          ≡ some effective)
        × (1 ≤ effective)
        × (effective ≤ delay)
  unfolding derive_sparse_row effective_inclusion_delay
  derive_sparse_row-agree reward missed_slots inc missed h complement =
      let settled =
        scan_forward_for_inclusion-settles spec hex_decode get_block get_block_root duty
          target_epoch committee_map (some (inc, missed)) h in
      let (after, within, found) = settled.settles in
      let probe_at =
        probe spec hex_decode
          (sparse_context target_epoch duty.slot settled.target_root settled.head_root)
          committee_map duty.validator_index in
      let counted =
        found.counted
        ∙ sym (
            count_by-same get_block probe_at missed_slots (duty.slot + 1)
              (inc.inclusion_slot - (duty.slot + 1))
              (λ t a b.
                is_skipped-contains get_block probe_at missed_slots t (get_block t) refl
                  (complement t (omega arith) (omega arith)))) in
      let short =
        count_by-range_le (contains missed_slots) (duty.slot + 1)
          (inc.inclusion_slot - (duty.slot + 1)) in
      (ap (λ (n : ℕ). some (inc.inclusion_slot - duty.slot - n)) counted, omega arith, omega arith)
