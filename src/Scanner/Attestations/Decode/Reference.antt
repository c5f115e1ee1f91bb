-- ===== src/Scanner/Attestations/Decode/Reference.antt =====
-- An independent reading of src/scanner/attestations/decode.rs, one validator at a time: which
-- bits of an attestation are a validator's, and the first attestation that has one set.
use dabeacon_indexer.Prelude.{
  ℕ, ◌+◌, ◌==◌, ==_iff, Bool, false, ◌&&◌, ◌||◌, List, [], ◌∷◌, Option, none, some, get_elem?,
  contains, lookup, contains_key, nat_key, pair_key, or_else, when, or_else-when, or_else-none,
  lookup-insert, ap, ◌≡◌, ◌∙◌, arith,
}
use dabeacon_indexer.Error.{ok, for_each, >>=-eq-ok}
use dabeacon_indexer.Scanner.Attestations.{AttestationInclusion, AssignedCommittee}
use dabeacon_indexer.Scanner.Attestations.Decode.{
  Inclusions, record_member, record_members, record_committee_inclusions, any_member, any_committee,
}

is_set : Option Bool → Bool
is_set none = false
is_set (some b) = b

-- The validator is one of these, whose bits stand at `bit_pos`, .., and its bit is set.
unfoldable pub selects_member : List Bool → ℕ → List ℕ → ℕ → Bool
unfolding is_set
selects_member agg_bits bit_pos [] v = false
selects_member agg_bits bit_pos (w ∷ ws) v =
    (w == v && is_set (get_elem? agg_bits bit_pos)) || selects_member agg_bits (bit_pos + 1) ws v

unfoldable pub selects : List Bool → List AssignedCommittee → ℕ → Bool
unfolding selects_member
selects agg_bits [] v = false
selects agg_bits (c ∷ cs) v =
    selects_member agg_bits c.bit_offset c.validators v || selects agg_bits cs v

module _ (agg_bits : List Bool) (scan_set : List ℕ) (inclusion : AttestationInclusion) (v : ℕ) where
  lookup-record_member :
      (bit_pos w : ℕ) (m : Inclusions) {m' : Inclusions}
      → record_member agg_bits scan_set inclusion bit_pos w m ≡ ok m'
      → lookup v m'
        ≡ or_else (lookup v m) (
            when (contains scan_set v && (w == v && is_set (get_elem? agg_bits bit_pos))) inclusion)
  unfolding record_member is_set contains_key
  lookup-record_member bit_pos w m h = ground (arith, lookup-insert w v inclusion m, ==_iff w v)

  lookup-record_members :
      (bit_pos : ℕ) (ws : List ℕ) (m : Inclusions) {m' : Inclusions}
      → record_members agg_bits scan_set inclusion bit_pos ws m ≡ ok m'
      → lookup v m'
        ≡ or_else
            (lookup v m)
            (when (contains scan_set v && selects_member agg_bits bit_pos ws v) inclusion)
  unfolding record_members selects_member
  lookup-record_members bit_pos [] m h = ground (arith, or_else-none (lookup v m))
  lookup-record_members bit_pos (w ∷ ws) m h =
      let step = >>=-eq-ok (record_member agg_bits scan_set inclusion bit_pos w m) _ h in
      lookup-record_members (bit_pos + 1) ws step.0 step.2
      ∙ (ap
            (λ (o : Option AttestationInclusion).
              or_else o (
                when (contains scan_set v && selects_member agg_bits (bit_pos + 1) ws v) inclusion))
            (lookup-record_member bit_pos w m step.1)
          ∙ or_else-when (lookup v m) (contains scan_set v) _ _ inclusion)

  pub lookup-record_committees :
      (cs : List AssignedCommittee) (m : Inclusions) {m' : Inclusions}
      → for_each
          (λ found assigned. record_committee_inclusions assigned agg_bits scan_set inclusion found)
          m
          cs
        ≡ ok m'
      → lookup v m'
        ≡ or_else (lookup v m) (when (contains scan_set v && selects agg_bits cs v) inclusion)
  unfolding for_each selects record_committee_inclusions
  lookup-record_committees [] m h = ground (arith, or_else-none (lookup v m))
  lookup-record_committees (c ∷ cs) m h =
      let step =
        >>=-eq-ok (record_members agg_bits scan_set inclusion c.bit_offset c.validators m) _ h in
      lookup-record_committees cs step.0 step.2
      ∙ (ap
            (λ (o : Option AttestationInclusion).
              or_else o (when (contains scan_set v && selects agg_bits cs v) inclusion))
            (lookup-record_members c.bit_offset c.validators m step.1)
          ∙ or_else-when (lookup v m) (contains scan_set v) _ _ inclusion)

module _ (agg_bits : List Bool) (scan_set : List ℕ) (v : ℕ) where
  any_member-false :
      (bit_pos : ℕ) (ws : List ℕ)
      → any_member agg_bits scan_set bit_pos ws ≡ ok false
      → (contains scan_set v && selects_member agg_bits bit_pos ws v) ≡ false
  unfolding any_member selects_member
  any_member-false bit_pos [] h = ground arith
  any_member-false bit_pos (w ∷ ws) h =
      ground (arith, any_member-false (bit_pos + 1) ws, ==_iff w v)

  pub any_committee-false :
      (cs : List AssignedCommittee)
      → any_committee agg_bits scan_set cs ≡ ok false
      → (contains scan_set v && selects agg_bits cs v) ≡ false
  unfolding any_committee selects
  any_committee-false [] h = ground arith
  any_committee-false (c ∷ cs) h =
      ground (arith, any_member-false c.bit_offset c.validators, any_committee-false cs)
