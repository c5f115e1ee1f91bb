-- ===== src/Scanner/Attestations/Decode/Slots.antt =====
-- The slot of the inclusions that src/scanner/attestations/decode.rs records.
use dabeacon_indexer.Prelude.{
  ℕ, ◌==◌, if◌then◌else◌, Bool, true, false, ◌&&◌, String, List, [], ◌∷◌, Option, none, some,
  contains, length, or_else, ◌≡◌, sym, ap, some-inj,
}
use dabeacon_indexer.Error.{Result, ok, err, panic}
use dabeacon_indexer.Chain.{ChainSpec, slot_to_epoch}
use dabeacon_indexer.Beacon.Types.{
  AttestationData, PreElectraAttestation, Attestation, Attestations, pre_electra, electra,
  SignedBeaconBlock, attestations,
}
use dabeacon_indexer.Scanner.Attestations.{
  VoteContext, VoteMarks, AttestationInclusion, AssignedCommittee,
}
use dabeacon_indexer.Scanner.Attestations.Committees.{CommitteeMap}
use dabeacon_indexer.Scanner.Attestations.Decode.Reference.{selects}
use dabeacon_indexer.Scanner.Attestations.Decode.{vote_marks}
use dabeacon_indexer.Scanner.Attestations.Decode.Resolved.{first, marked, seen_with_bits}
use dabeacon_indexer.Scanner.Attestations.Decode.Earliest.{
  seen_decoded, seen_pre_electra, seen_electra, seen_in, seen_in_block,
}

-- An inclusion, if there is one, is of the slot.
abbrev pub IsOfSlot : ℕ → Option AttestationInclusion → Type 0
IsOfSlot slot found = (inc : AttestationInclusion) → found ≡ some inc → inc.inclusion_slot ≡ slot

absent-IsOfSlot : (slot : ℕ) → IsOfSlot slot none
absent-IsOfSlot slot inc h = cc

marked-IsOfSlot :
    (slot : ℕ) (vote : AttestationData) (marks : Result VoteMarks)
    → IsOfSlot slot (marked slot vote marks)
unfolding marked
marked-IsOfSlot slot vote (ok marks) inc h =
    ap (λ (i : AttestationInclusion). i.inclusion_slot) (sym (some-inj h))
marked-IsOfSlot slot vote (err e) inc h = cc
marked-IsOfSlot slot vote panic inc h = cc

guarded-IsOfSlot :
    (slot : ℕ) (b : Bool) (found : Option AttestationInclusion)
    → IsOfSlot slot found
    → IsOfSlot slot (if b then found else none)
guarded-IsOfSlot slot true found h = h
guarded-IsOfSlot slot false found h = absent-IsOfSlot slot

or_else-IsOfSlot :
    (slot : ℕ) (a b : Option AttestationInclusion)
    → IsOfSlot slot a
    → IsOfSlot slot b
    → IsOfSlot slot (or_else a b)
or_else-IsOfSlot slot none b ha hb = hb
or_else-IsOfSlot slot (some a) b ha hb = ha

first-IsOfSlot :
    {A : Type 0} (slot : ℕ) (f : A → Option AttestationInclusion)
    → ((a : A) → IsOfSlot slot (f a))
    → (as' : List A) → IsOfSlot slot (first f as')
unfolding first
first-IsOfSlot slot f h [] = absent-IsOfSlot slot
first-IsOfSlot slot f h (x ∷ xs) =
    or_else-IsOfSlot slot (f x) (first f xs) (h x) (first-IsOfSlot slot f h xs)

module _ (spec : ChainSpec) (hex_decode : String → Option (List ℕ)) (scan_set : List ℕ) (v : ℕ)
    (slot target_epoch : ℕ) (committee_map : CommitteeMap) (ctx : Option VoteContext) where
  bits_IsOfSlot :
      (vote : AttestationData) (agg_bits : List Bool) (cs : Result (List AssignedCommittee))
      → IsOfSlot slot (seen_with_bits scan_set v vote slot ctx agg_bits cs)
  unfolding seen_with_bits
  bits_IsOfSlot vote agg_bits (ok cs) =
      guarded-IsOfSlot slot (contains scan_set v && selects agg_bits cs v) _
        (marked-IsOfSlot slot vote (vote_marks vote ctx))
  bits_IsOfSlot vote agg_bits (err e) = absent-IsOfSlot slot
  bits_IsOfSlot vote agg_bits panic = absent-IsOfSlot slot

  seen_decoded-IsOfSlot :
      (vote : AttestationData) (resolve : ℕ → Result (List AssignedCommittee))
      (bits : Result (List Bool))
      → IsOfSlot slot (
          seen_decoded spec hex_decode scan_set v slot target_epoch committee_map ctx vote resolve
            bits)
  unfolding seen_decoded
  seen_decoded-IsOfSlot vote resolve (ok agg_bits) =
      bits_IsOfSlot vote agg_bits (resolve (length agg_bits))
  seen_decoded-IsOfSlot vote resolve (err e) = absent-IsOfSlot slot
  seen_decoded-IsOfSlot vote resolve panic = absent-IsOfSlot slot

  seen_pre_electra-IsOfSlot :
      (att : PreElectraAttestation)
      → IsOfSlot slot
          (seen_pre_electra spec hex_decode scan_set v slot target_epoch committee_map ctx att)
  unfolding seen_pre_electra
  seen_pre_electra-IsOfSlot att =
      guarded-IsOfSlot slot (slot_to_epoch spec att.vote.slot == target_epoch) _
        (seen_decoded-IsOfSlot att.vote _ _)

  seen_electra-IsOfSlot :
      (att : Attestation)
      → IsOfSlot slot
          (seen_electra spec hex_decode scan_set v slot target_epoch committee_map ctx att)
  unfolding seen_electra
  seen_electra-IsOfSlot att =
      guarded-IsOfSlot slot (slot_to_epoch spec att.vote.slot == target_epoch) _
        (seen_decoded-IsOfSlot att.vote _ _)

  seen_in-IsOfSlot :
      (atts : Attestations)
      → IsOfSlot slot (seen_in spec hex_decode scan_set v slot target_epoch committee_map ctx atts)
  unfolding seen_in
  seen_in-IsOfSlot (pre_electra atts) = first-IsOfSlot slot _ seen_pre_electra-IsOfSlot atts
  seen_in-IsOfSlot (electra atts) = first-IsOfSlot slot _ seen_electra-IsOfSlot atts

pub seen_in_block-IsOfSlot :
    (spec : ChainSpec) (hex_decode : String → Option (List ℕ)) (scan_set : List ℕ)
    (committee_map : CommitteeMap) (ctx : VoteContext) (v slot : ℕ) (block : SignedBeaconBlock)
    → IsOfSlot slot (seen_in_block spec hex_decode scan_set committee_map ctx v (slot, some block))
unfolding seen_in_block
seen_in_block-IsOfSlot spec hex_decode scan_set committee_map ctx v slot block =
    seen_in-IsOfSlot spec hex_decode scan_set v slot ctx.target_epoch committee_map (some ctx)
      (attestations block)
