-- ===== src/Scanner/Attestations/Decode/Resolved.antt =====
-- One resolved attestation of src/scanner/attestations/decode.rs, and a loop over attestations,
-- seen from one validator.
use dabeacon_indexer.Prelude.{
  ℕ, ◌-◌, if◌then◌else◌, Bool, true, false, ◌&&◌, List, [], ◌∷◌, Option, none, some, contains,
  lookup, nat_key, or_else, or_else-none, or_else_assoc, ◌≡◌, ap, ◌∙◌, arith,
}
use dabeacon_indexer.Error.{Result, ok, err, panic, for_each, ◌>>=◌, >>=-eq-ok}
use dabeacon_indexer.Beacon.Types.{AttestationData}
use dabeacon_indexer.Scanner.Attestations.{
  VoteContext, AttestationInclusion, VoteMarks, AssignedCommittee, inclusion_delay,
}
use dabeacon_indexer.Scanner.Attestations.Decode.{
  Inclusions, any_committee, vote_marks, inclusion_at, process_resolved_attestation,
  record_committee_inclusions,
}
use dabeacon_indexer.Scanner.Attestations.Decode.Reference.{
  selects, lookup-record_committees, any_committee-false,
}

-- The first result that is there.
unfoldable pub first : {A B : Type 0} → (A → Option B) → List A → Option B
first f [] = none
first f (x ∷ xs) = or_else (f x) (first f xs)

unfoldable pub marked : ℕ → AttestationData → Result VoteMarks → Option AttestationInclusion
marked slot vote (ok marks) = some (inclusion_at slot (slot - vote.slot) marks)
marked slot vote (err e) = none
marked slot vote panic = none

module _ (scan_set : List ℕ) (v : ℕ) where
  unfoldable pub seen_with_bits :
      AttestationData
      → ℕ
      → Option VoteContext
      → List Bool
      → Result (List AssignedCommittee)
      → Option AttestationInclusion
  unfolding marked
  seen_with_bits vote slot ctx agg_bits (ok committees) =
      if contains scan_set v && selects agg_bits committees v
      then marked slot vote (vote_marks vote ctx)
      else none
  seen_with_bits vote slot ctx agg_bits (err e) = none
  seen_with_bits vote slot ctx agg_bits panic = none

  record_all :
      List Bool → List AssignedCommittee → ℕ → Inclusions → ℕ → VoteMarks → Result Inclusions
  record_all agg_bits cs slot m delay marks =
      for_each
        (λ found assigned.
          record_committee_inclusions assigned agg_bits scan_set (inclusion_at slot delay marks)
            found)
        m cs

  module _ (vote : AttestationData) (agg_bits : List Bool) (cs : List AssignedCommittee) (slot : ℕ)
      (ctx : Option VoteContext) (m m' : Inclusions) where
    abbrev Agrees : Type 0
    Agrees = lookup v m' ≡ or_else (lookup v m) (seen_with_bits vote slot ctx agg_bits (ok cs))

    lookup-recorded :
        (delay : ℕ)
        → delay ≡ slot - vote.slot
        → (vote_marks vote ctx >>= record_all agg_bits cs slot m delay) ≡ ok m'
        → Agrees
    unfolding seen_with_bits record_all
    lookup-recorded delay e h =
        let marks = >>=-eq-ok (vote_marks vote ctx) (record_all agg_bits cs slot m delay) h in
        ground (
          arith,
          marks.1,
          lookup-record_committees agg_bits scan_set (inclusion_at slot delay marks.0) v cs m
              marks.2,
        )

    lookup-tracked :
        (delay : ℕ) (tracked : Bool)
        → inclusion_delay slot vote.slot ≡ ok delay
        → any_committee agg_bits scan_set cs ≡ ok tracked
        → (if tracked then (vote_marks vote ctx >>= record_all agg_bits cs slot m delay) else ok m)
          ≡ ok m'
        → Agrees
    unfolding seen_with_bits inclusion_delay
    lookup-tracked delay true e found h = lookup-recorded delay (ground arith) h
    lookup-tracked delay false e found h =
        ground (arith, any_committee-false agg_bits scan_set v cs found, or_else-none (lookup v m))

    pub lookup-process_resolved :
        process_resolved_attestation vote agg_bits cs slot scan_set ctx m ≡ ok m' → Agrees
    unfolding process_resolved_attestation record_all
    lookup-process_resolved h =
        let delay = >>=-eq-ok (inclusion_delay slot vote.slot) _ h in
        let tracked = >>=-eq-ok (any_committee agg_bits scan_set cs) _ delay.2 in
        lookup-tracked delay.0 tracked.0 delay.1 tracked.1 tracked.2

module _ {A : Type 0} (v : ℕ) (step : Inclusions → A → Result Inclusions)
    (seen : A → Option AttestationInclusion)
    (step_lem : (m m' : Inclusions) (a : A)
      → step m a ≡ ok m'
      → lookup v m' ≡ or_else (lookup v m) (seen a)) where
  pub lookup-for_each :
      (xs : List A) (m m' : Inclusions)
      → for_each step m xs ≡ ok m'
      → lookup v m' ≡ or_else (lookup v m) (first seen xs)
  unfolding for_each first
  lookup-for_each [] m m' h = ground (arith, or_else-none (lookup v m))
  lookup-for_each (x ∷ xs) m m' h =
      let next = >>=-eq-ok (step m x) _ h in
      lookup-for_each xs next.0 m' next.2
      ∙ (ap (λ (o : Option AttestationInclusion). or_else o (first seen xs))
            (step_lem m next.0 x next.1)
          ∙ or_else_assoc (lookup v m) (seen x) (first seen xs))
