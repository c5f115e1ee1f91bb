-- ===== src/Scanner/Attestations/Sparse/First.antt =====
-- What `scan_forward_for_inclusion` (src/scanner/attestations/sparse.rs) finds, and the delay that
-- the sparse scan stores for it.
use dabeacon_indexer.Prelude.{
  ℕ, zero, suc, ◌+◌, ◌-◌, ◌≤◌, ◌<◌, ◌==◌, if◌then◌else◌, Bool, true, false, count_by, range, Option,
  none, some, nat_key, ◌≡◌, refl, sym, arith, Bool-cases, inl, inr, subst, ==_iff,
}
use dabeacon_indexer.Error.{Result, ok, err, panic, >>=-eq-ok, ok-injective}
use dabeacon_indexer.Beacon.Types.{SignedBeaconBlock}
use dabeacon_indexer.Scanner.Attestations.{AttestationInclusion}
use dabeacon_indexer.Scanner.Attestations.Sparse.{continue_with, probe_answer, probe_slots}

module _ (get_block : ℕ → Result (Option SignedBeaconBlock))
    (probe_at : ℕ → SignedBeaconBlock → Result (Option AttestationInclusion)) where
  -- The node has no block at the slot, or one that does not include the validator.
  pub data IsSilent (slot : ℕ) : Type 0 where
    skipped : get_block slot ≡ ok none → IsSilent slot
    absent :
        (block : SignedBeaconBlock)
        → get_block slot ≡ ok (some block)
        → probe_at slot block ≡ ok none
        → IsSilent slot

  abbrev pub is_skipped : ℕ → Bool
  is_skipped slot = elim (get_block slot) [
    | ok answer ↦ elim answer [ none ↦ true | some block ↦ false ]
    | err e ↦ false
    | panic ↦ false
  ]

  -- The inclusion is in the block at `s`, no slot from `start` on and before it has one, and
  -- `missed` of these have no block.
  pub record IsFirst (start s : ℕ) (inc : AttestationInclusion) (missed : ℕ) : Type 0 where
    pub block : SignedBeaconBlock
    pub there : get_block s ≡ ok (some block)
    pub says : probe_at s block ≡ ok (some inc)
    pub before : (t : ℕ) → start ≤ t → t < s → IsSilent t
    pub counted : missed ≡ count_by is_skipped (range start (s - start))

  -- What the loop has found after its slots.
  abbrev pub Finds : ℕ → ℕ → ℕ → Option (AttestationInclusion × ℕ) → Type 0
  Finds start count missed none = (t : ℕ) → start ≤ t → t < start + count → IsSilent t
  Finds start count missed (some (inc, m)) =
      (s : ℕ) × (start ≤ s) × (s < start + count) × (missed ≤ m) × IsFirst start s inc (m - missed)

  first_or_later :
      (start t : ℕ)
      → IsSilent start
      → ((u : ℕ) → start + 1 ≤ u → u < t → IsSilent u)
      → (u : ℕ) → start ≤ u
      → u < t
      → IsSilent u
  first_or_later start t here later u a b = elim (Bool-cases (u == start)) [
    | inl e ↦ subst IsSilent (sym ((==_iff u start).0 e)) here
    | inr e ↦ later u (ground arith) b
  ]

  count_by-step :
      (start s : ℕ)
      → start + 1 ≤ s
      → count_by is_skipped (range start (s - start))
        ≡ (if is_skipped start then 1 else 0)
          + count_by is_skipped (range (start + 1) (s - (start + 1)))
  count_by-step start s later =
      rw (let e : s - start ≡ suc (s - (start + 1)) = omega arith in e) (ground arith)

  behind-Finds :
      (start count missed more : ℕ) (found : Option (AttestationInclusion × ℕ))
      → IsSilent start
      → more ≡ (if is_skipped start then 1 else 0)
      → Finds (start + 1) count (missed + more) found
      → Finds start (suc count) missed found
  behind-Finds start count missed more none here e later = λ u a b.
      first_or_later start (start + suc count) here (λ w c d. later w c (omega arith)) u a b
  behind-Finds start count missed more (some (inc, m)) here e (s, after, within, enough, found) = (
    s,
    omega arith,
    omega arith,
    omega arith,
    record {
      block = found.block;
      there = found.there;
      says = found.says;
      before = first_or_later start s here found.before;
      counted = rw (count_by-step start s after) (omega (arith, found.counted));
    },
  )

  module _ (start count missed : ℕ) (found : Option (AttestationInclusion × ℕ))
      (later : Result (Option (AttestationInclusion × ℕ))) where
    probed-Finds :
        (block : SignedBeaconBlock) (r : Option AttestationInclusion)
        → get_block start ≡ ok (some block)
        → probe_at start block ≡ ok r
        → continue_with get_block probe_at later missed r ≡ ok found
        → (later ≡ ok found → Finds (start + 1) count (missed + 0) found)
        → Finds start (suc count) missed found
    probed-Finds block none there says h ih =
        behind-Finds start count missed 0 found (absent block there says)
          (rw (there, is_skipped) refl) (ih h)
    probed-Finds block (some inc) there says h ih =
        subst (Finds start (suc count) missed) (ok-injective h) (
          start,
          omega arith,
          omega arith,
          omega arith,
          record {
            block = block;
            there = there;
            says = says;
            before = λ t a b. absurd (omega arith);
            counted = rw (let e : start - start ≡ 0 = omega arith in e) (omega arith);
          },
        )

    answered-Finds :
        (skipped_on : Result (Option (AttestationInclusion × ℕ)))
        (answer : Option SignedBeaconBlock)
        → get_block start ≡ ok answer
        → probe_answer get_block probe_at start missed skipped_on later answer ≡ ok found
        → (skipped_on ≡ ok found → Finds (start + 1) count (missed + 1) found)
        → (later ≡ ok found → Finds (start + 1) count (missed + 0) found)
        → Finds start (suc count) missed found
    answered-Finds skipped_on none there h ih_skipped ih =
        behind-Finds start count missed 1 found (skipped there) (rw (there, is_skipped) refl)
          (ih_skipped h)
    answered-Finds skipped_on (some block) there h ih_skipped ih =
        let says = >>=-eq-ok (probe_at start block) _ h in
        probed-Finds block says.0 there says.1 says.2 ih

  pub probe_slots-Finds :
      (count start missed : ℕ) (found : Option (AttestationInclusion × ℕ))
      → probe_slots get_block probe_at count start missed ≡ ok found
      → Finds start count missed found
  unfolding probe_slots
  probe_slots-Finds zero start missed found h =
      subst (Finds start zero missed) (ok-injective h) (λ t a b. absurd (omega arith))
  probe_slots-Finds (suc count) start missed found h =
      let answer = >>=-eq-ok (get_block start) _ h in
      answered-Finds start count missed found
        (probe_slots get_block probe_at count (start + 1) missed)
        (probe_slots get_block probe_at count (start + 1) (missed + 1)) answer.0 answer.1 answer.2
        (probe_slots-Finds count (start + 1) (missed + 1) found)
        (λ rest.
          subst (λ m. Finds (start + 1) count m found) (omega arith)
            (probe_slots-Finds count (start + 1) missed found rest))

  -- The window behind a duty's slot, through `last`, is settled: the first block with the validator's
  -- vote, or every slot asked and silent.
  abbrev pub Settles : ℕ → ℕ → Option (AttestationInclusion × ℕ) → Type 0
  Settles duty_slot last none = (t : ℕ) → duty_slot < t → t ≤ last → IsSilent t
  Settles duty_slot last (some (inc, missed)) =
      (duty_slot < inc.inclusion_slot)
      × (inc.inclusion_slot ≤ last)
      × IsFirst (duty_slot + 1) inc.inclusion_slot inc missed

  pub Finds-Settles :
      ((s : ℕ) (block : SignedBeaconBlock) (inc : AttestationInclusion)
        → probe_at s block ≡ ok (some inc)
        → inc.inclusion_slot ≡ s)
      → (duty_slot last : ℕ) (found : Option (AttestationInclusion × ℕ))
      → Finds (duty_slot + 1) (last - duty_slot) 0 found
      → Settles duty_slot last found
  Finds-Settles of_slot duty_slot last none h = λ t a b. h t (omega arith) (omega arith)
  Finds-Settles of_slot duty_slot last (some (inc, m)) (s, after, within, enough, found) =
      let e = of_slot s found.block inc found.says in
      (
        omega arith,
        omega arith,
        subst (λ t. IsFirst (duty_slot + 1) t inc m) (sym e)
            (subst (IsFirst (duty_slot + 1) s inc) (omega arith) found),
      )
