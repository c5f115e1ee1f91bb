-- ===== src/Scanner/Attestations/Committees/Safety.antt =====
-- Decoding and resolving an attestation (src/scanner/bits.rs, src/scanner/attestations/decode.rs)
-- gives committees or an error.
use dabeacon_indexer.Prelude.{
  ℕ, ◌+◌, ◌==◌, Bool, true, false, not, String, List, [], ◌∷◌, Option, none, some, length, lookup,
  nat_key, pair_key, ◌≢◌, arith,
}
use dabeacon_indexer.Error.{
  panic, >>=-ne-panic, ensure->>-ne-panic, ok_or->>=-ne-panic, ok-ne-panic,
  inconsistent_beacon_data,
}
use dabeacon_indexer.Chain.{ChainSpec}
use dabeacon_indexer.Beacon.Types.{PreElectraAttestation, Attestation}
use dabeacon_indexer.Scanner.Bits.{
  decode_bitlist, decode_bitvector, bitlist_bits, split_last, trim_start_0x, byte_bits,
}
use dabeacon_indexer.Scanner.Attestations.Committees.{
  CommitteeMap, resolve_pre_electra_committees, resolve_electra_committees, select_committees,
  is_empty,
}

module _ (hex_decode : String → Option (List ℕ)) where
  bitlist_bits-ne-panic : (o : Option (List ℕ × ℕ)) → bitlist_bits o ≢ panic
  unfolding bitlist_bits
  bitlist_bits-ne-panic none = λ h. cc
  bitlist_bits-ne-panic (some (front, last)) = ground arith

  pub decode_bitlist-ne-panic : (s : String) → decode_bitlist hex_decode s ≢ panic
  unfolding decode_bitlist
  decode_bitlist-ne-panic s =
      ok_or->>=-ne-panic inconsistent_beacon_data (hex_decode (trim_start_0x s)) _
        (λ bytes. bitlist_bits-ne-panic (split_last bytes))

  pub decode_bitvector-ne-panic : (s : String) → decode_bitvector hex_decode s ≢ panic
  unfolding decode_bitvector
  decode_bitvector-ne-panic s =
      ok_or->>=-ne-panic inconsistent_beacon_data (hex_decode (trim_start_0x s)) _
        (λ bytes. ok-ne-panic (byte_bits bytes))

select_committees-ne-panic :
    (committee_map : CommitteeMap) (slot idx bit_offset : ℕ) (bits : List Bool)
    → select_committees committee_map slot idx bit_offset bits ≢ panic
unfolding select_committees
select_committees-ne-panic committee_map slot idx bit_offset [] = λ h. cc
select_committees-ne-panic committee_map slot idx bit_offset (false ∷ bits) =
    select_committees-ne-panic committee_map slot (idx + 1) bit_offset bits
select_committees-ne-panic committee_map slot idx bit_offset (true ∷ bits) =
    ok_or->>=-ne-panic inconsistent_beacon_data (lookup (slot, idx) committee_map) _ (λ committee.
      >>=-ne-panic
        (select_committees committee_map slot (idx + 1) (bit_offset + length committee) bits) _
        (select_committees-ne-panic committee_map slot (idx + 1) (bit_offset + length committee)
          bits)
        (λ rest _ h. cc))

pub resolve_pre_electra-ne-panic :
    (att : PreElectraAttestation) (committee_map : CommitteeMap) (n : ℕ)
    → resolve_pre_electra_committees att committee_map n ≢ panic
unfolding resolve_pre_electra_committees
resolve_pre_electra-ne-panic att committee_map n =
    ok_or->>=-ne-panic inconsistent_beacon_data
      (lookup (att.vote.slot, att.vote.index) committee_map) _
      (λ committee.
        ensure->>-ne-panic inconsistent_beacon_data (n == length committee) _ (ok-ne-panic _))

module _ (spec : ChainSpec) (hex_decode : String → Option (List ℕ)) where
  pub resolve_electra-ne-panic :
      (att : Attestation) (committee_map : CommitteeMap) (n : ℕ)
      → resolve_electra_committees spec hex_decode att committee_map n ≢ panic
  unfolding resolve_electra_committees
  resolve_electra-ne-panic att committee_map n =
      ensure->>-ne-panic inconsistent_beacon_data (att.vote.index == 0) _ (
        >>=-ne-panic (decode_bitvector hex_decode att.committee_bits) _
          (decode_bitvector-ne-panic hex_decode att.committee_bits)
          (λ bits _.
            ensure->>-ne-panic inconsistent_beacon_data
              (length bits == spec.max_committees_per_slot) _
              (>>=-ne-panic (select_committees committee_map att.vote.slot 0 0 bits) _
                (select_committees-ne-panic committee_map att.vote.slot 0 0 bits)
                (λ s _.
                  ensure->>-ne-panic inconsistent_beacon_data (not (is_empty s.0)) _
                    (ensure->>-ne-panic inconsistent_beacon_data (n == s.1) _ (ok-ne-panic s.0))))))
