-- ===== src/Scanner/Attestations/Committees/Layout.antt =====
-- Where the committees' bits stand in an attestation (src/scanner/attestations/decode.rs).
use dabeacon_indexer.Prelude.{
  ℕ, ◌+◌, ◌≤◌, ◌==◌, ==_iff, Bool, true, false, not, String, List, [], ◌∷◌, Option, some, length,
  All, lookup, pair_key, ◌≡◌, ◌≢◌, refl, sym, subst, arith,
}
use dabeacon_indexer.Error.{
  ok, ok_or, ensure, >>=-eq-ok, ok-injective, ensure-ok, ok_or-ok, inconsistent_beacon_data,
}
use dabeacon_indexer.Chain.{ChainSpec}
use dabeacon_indexer.Beacon.Types.{PreElectraAttestation, Attestation}
use dabeacon_indexer.Scanner.Bits.{decode_bitvector}
use dabeacon_indexer.Scanner.Attestations.{AssignedCommittee}
use dabeacon_indexer.Scanner.Attestations.Committees.{
  CommitteeMap, resolve_pre_electra_committees, select_committees, resolve_electra_committees,
  is_empty,
}

-- From `offset` on, one committee's bits stand behind the other's, up to `total`.
abbrev pub IsLaidOut : ℕ → List AssignedCommittee → ℕ → Type 0
IsLaidOut offset [] total = offset ≡ total
IsLaidOut offset (c ∷ cs) total =
    (c.bit_offset ≡ offset) × IsLaidOut (offset + length c.validators) cs total

abbrev pub IsWithin : ℕ → AssignedCommittee → Type 0
IsWithin total c = c.bit_offset + length c.validators ≤ total

IsLaidOut-le :
    (offset : ℕ) (cs : List AssignedCommittee) (total : ℕ)
    → IsLaidOut offset cs total
    → offset ≤ total
IsLaidOut-le offset [] total h = omega arith
IsLaidOut-le offset (c ∷ cs) total h =
    omega (arith, IsLaidOut-le (offset + length c.validators) cs total h.1)

pub IsLaidOut-IsWithin :
    (offset : ℕ) (cs : List AssignedCommittee) (total : ℕ)
    → IsLaidOut offset cs total
    → All (IsWithin total) cs
IsLaidOut-IsWithin offset [] total h = tt
IsLaidOut-IsWithin offset (c ∷ cs) total h = (
  omega (arith, IsLaidOut-le (offset + length c.validators) cs total h.1),
  IsLaidOut-IsWithin (offset + length c.validators) cs total h.1,
)

-- The committee's validators are those of the map, for the attestation's slot.
abbrev pub IsKnown : CommitteeMap → ℕ → AssignedCommittee → Type 0
IsKnown committee_map slot c = lookup (slot, c.index) committee_map ≡ some c.validators

module _ (committee_map : CommitteeMap) (slot : ℕ) where
  select_committees-layout :
      (idx bit_offset : ℕ) (bits : List Bool) (cs : List AssignedCommittee) (total : ℕ)
      → select_committees committee_map slot idx bit_offset bits ≡ ok (cs, total)
      → IsLaidOut bit_offset cs total × All (IsKnown committee_map slot) cs
  unfolding select_committees
  select_committees-layout idx bit_offset [] [] total h = (ground arith, tt)
  select_committees-layout idx bit_offset [] (c ∷ cs) total h = cc
  select_committees-layout idx bit_offset (false ∷ bits) cs total h =
      select_committees-layout (idx + 1) bit_offset bits cs total h
  select_committees-layout idx bit_offset (true ∷ bits) cs total h =
      let c = >>=-eq-ok (ok_or inconsistent_beacon_data (lookup (slot, idx) committee_map)) _ h in
      let r =
        >>=-eq-ok (select_committees committee_map slot (idx + 1) (bit_offset + length c.0) bits) _
          c.2 in
      let later =
        select_committees-layout (idx + 1) (bit_offset + length c.0) bits r.0.0 r.0.1 r.1 in
      subst
        (λ (p : List AssignedCommittee × ℕ).
          IsLaidOut bit_offset p.0 p.1 × All (IsKnown committee_map slot) p.0)
        (ok-injective r.2)
        ((refl, later.0), (ok_or-ok _ (lookup (slot, idx) committee_map) c.1, later.1))

is_empty-false : {A : Type 0} (xs : List A) → not (is_empty xs) ≡ true → xs ≢ []
unfolding is_empty
is_empty-false [] h = cc
is_empty-false (x ∷ xs) h = λ e. cc

-- The committees of an Electra attestation that is accepted: there is one at least, each is the
-- committee that the epoch's list has for the attestation's slot, and their bits stand one behind
-- the other and fill `aggregation_bits`; `data.index` is 0.
pub resolve_electra-layout :
    (spec : ChainSpec) (hex_decode : String → Option (List ℕ)) (att : Attestation)
    (committee_map : CommitteeMap) (agg_bits_len : ℕ) (cs : List AssignedCommittee)
    → resolve_electra_committees spec hex_decode att committee_map agg_bits_len ≡ ok cs
    → IsLaidOut 0 cs agg_bits_len
      × All (IsKnown committee_map att.vote.slot) cs
      × (cs ≢ [])
      × (att.vote.index ≡ 0)
unfolding resolve_electra_committees
resolve_electra-layout spec hex_decode att committee_map agg_bits_len cs h =
    let i = >>=-eq-ok (ensure (att.vote.index == 0) inconsistent_beacon_data) _ h in
    let b = >>=-eq-ok (decode_bitvector hex_decode att.committee_bits) _ i.2 in
    let n =
      >>=-eq-ok (ensure (length b.0 == spec.max_committees_per_slot) inconsistent_beacon_data) _
        b.2 in
    let s = >>=-eq-ok (select_committees committee_map att.vote.slot 0 0 b.0) _ n.2 in
    let e = >>=-eq-ok (ensure (not (is_empty s.0.0)) inconsistent_beacon_data) _ s.2 in
    let t = >>=-eq-ok (ensure (agg_bits_len == s.0.1) inconsistent_beacon_data) _ e.2 in
    let laid = select_committees-layout committee_map att.vote.slot 0 0 b.0 s.0.0 s.0.1 s.1 in
    let total = (==_iff agg_bits_len s.0.1).0 (ensure-ok _ _ t.1) in
    subst
      (λ (xs : List AssignedCommittee).
        IsLaidOut 0 xs agg_bits_len
        × All (IsKnown committee_map att.vote.slot) xs
        × (xs ≢ [])
        × (att.vote.index ≡ 0))
      (ok-injective t.2)
      (
        subst (IsLaidOut 0 s.0.0) (sym total) laid.0,
        laid.1,
        is_empty-false s.0.0 (ensure-ok _ _ e.1),
        (==_iff att.vote.index 0).0 (ensure-ok _ _ i.1),
      )

-- Where an attestation from before Electra is accepted, its committee's bits start at 0 and fill
-- `aggregation_bits`.
pub resolve_pre_electra-layout :
    (att : PreElectraAttestation) (committee_map : CommitteeMap) (agg_bits_len : ℕ)
    (cs : List AssignedCommittee)
    → resolve_pre_electra_committees att committee_map agg_bits_len ≡ ok cs
    → IsLaidOut 0 cs agg_bits_len
unfolding resolve_pre_electra_committees
resolve_pre_electra-layout att committee_map agg_bits_len cs h =
    let c =
      >>=-eq-ok
        (ok_or inconsistent_beacon_data (lookup (att.vote.slot, att.vote.index) committee_map)) _
        h in
    let n = >>=-eq-ok (ensure (agg_bits_len == length c.0) inconsistent_beacon_data) _ c.2 in
    subst (λ (xs : List AssignedCommittee). IsLaidOut 0 xs agg_bits_len) (ok-injective n.2)
      (refl, omega (arith, (==_iff agg_bits_len (length c.0)).0 (ensure-ok _ _ n.1)))
