-- ===== src/Scanner/Attestations/Committees.antt =====
-- src/scanner/attestations/decode.rs: the committees that an attestation's bits refer to.
pub mod Layout
pub mod Safety
use dabeacon_indexer.Prelude.{
  ℕ, ◌+◌, ◌==◌, Bool, true, false, not, String, List, [], ◌∷◌, Option, length, HashMap, lookup,
  insert, pair_key,
}
use dabeacon_indexer.Error.{Result, ok, ok_or, ensure, ◌>>=◌, ◌>>◌, inconsistent_beacon_data}
use dabeacon_indexer.Chain.{ChainSpec}
use dabeacon_indexer.Beacon.Types.{PreElectraAttestation, Attestation, Committee}
use dabeacon_indexer.Scanner.Bits.{decode_bitvector}
use dabeacon_indexer.Scanner.Attestations.{AssignedCommittee}

-- A map from (slot, committee index) to the committee's validators.
abbrev pub CommitteeMap : Type 0
CommitteeMap = HashMap (ℕ × ℕ) (List ℕ)

insert_committees : CommitteeMap → List Committee → CommitteeMap
insert_committees map [] = map
insert_committees map (c ∷ cs) = insert_committees (insert (c.slot, c.index) c.validators map) cs

unfoldable pub build_committee_map : List Committee → CommitteeMap
unfolding insert_committees
build_committee_map committees = insert_committees [] committees

unfoldable pub resolve_pre_electra_committees :
    PreElectraAttestation → CommitteeMap → ℕ → Result (List AssignedCommittee)
resolve_pre_electra_committees att committee_map agg_bits_len = do
  committee ← ok_or inconsistent_beacon_data (lookup (att.vote.slot, att.vote.index) committee_map)
  ensure (agg_bits_len == length committee) inconsistent_beacon_data
  ok (record { index = att.vote.index; validators = committee; bit_offset = 0 } ∷ [])

-- The loop over `committee_bits`, from bit `idx` on: the selected committees, and the bits that
-- they take up together.
unfoldable pub select_committees :
    CommitteeMap → ℕ → ℕ → ℕ → List Bool → Result (List AssignedCommittee × ℕ)
select_committees committee_map slot idx bit_offset [] = ok ([], bit_offset)
select_committees committee_map slot idx bit_offset (false ∷ bits) =
    select_committees committee_map slot (idx + 1) bit_offset bits
select_committees committee_map slot idx bit_offset (true ∷ bits) = do
  committee ← ok_or inconsistent_beacon_data (lookup (slot, idx) committee_map)
  (assigned, total) ←
      select_committees committee_map slot (idx + 1) (bit_offset + length committee) bits
  ok (record { index = idx; validators = committee; bit_offset = bit_offset } ∷ assigned, total)

pub is_empty : {A : Type 0} → List A → Bool
is_empty [] = true
is_empty (x ∷ xs) = false

module _ (spec : ChainSpec) (hex_decode : String → Option (List ℕ)) where
  unfoldable pub resolve_electra_committees :
      Attestation → CommitteeMap → ℕ → Result (List AssignedCommittee)
  unfolding is_empty
  resolve_electra_committees att committee_map agg_bits_len = do
    ensure (att.vote.index == 0) inconsistent_beacon_data
    committee_bits ← decode_bitvector hex_decode att.committee_bits
    ensure (length committee_bits == spec.max_committees_per_slot) inconsistent_beacon_data
    (assigned, bit_offset) ← select_committees committee_map att.vote.slot 0 0 committee_bits
    ensure (not (is_empty assigned)) inconsistent_beacon_data
    ensure (agg_bits_len == bit_offset) inconsistent_beacon_data
    ok assigned
