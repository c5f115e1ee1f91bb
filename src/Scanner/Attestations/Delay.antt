-- ===== src/Scanner/Attestations/Delay.antt =====
-- The inclusion delays of src/scanner/attestations/mod.rs: as the dense scan computes them, from
-- the slots without a block, and as the live scan does, from the slots with one.
use dabeacon_indexer.Prelude.{
  ℕ, suc, ◌+◌, ◌-◌, ◌≤◌, ◌<◌, true, not, contains, contains_key, count_by, range, HashMap, nat_key,
  List, ◌≡◌, ap, ◌∙◌, arith, count_by-complement, count_by-range_last,
}
use dabeacon_indexer.Error.{ok, err, inconsistent_beacon_data}
use dabeacon_indexer.Beacon.Types.{BlockRoot}
use dabeacon_indexer.Scanner.Attestations.{inclusion_delay, effective_inclusion_delay}

-- `(duty.slot + 1..=inclusion_slot).filter(|slot| roots.contains_key(slot)).count()` of
-- `scan_live_attestation_epoch`.
unfoldable pub live_effective_delay : HashMap ℕ BlockRoot → ℕ → ℕ → ℕ
live_effective_delay roots duty_slot inclusion_slot =
    count_by (λ slot. contains_key slot roots)
      (range (duty_slot + 1) (inclusion_slot + 1 - (duty_slot + 1)))

-- An inclusion slot before the attestation's slot is an error, and no other is; the delay is the
-- number of slots between the two.
pub inclusion_delay_iff :
    (inclusion_slot att_slot delay : ℕ)
    → ((inclusion_delay inclusion_slot att_slot ≡ ok delay) → att_slot + delay ≡ inclusion_slot)
      × (att_slot + delay ≡ inclusion_slot → inclusion_delay inclusion_slot att_slot ≡ ok delay)
      × (inclusion_slot < att_slot
          → inclusion_delay inclusion_slot att_slot ≡ err inconsistent_beacon_data)
unfolding inclusion_delay
inclusion_delay_iff inclusion_slot att_slot delay =
    (λ h. ground arith, λ h. ground arith, λ h. ground arith)

module _ (att_slot inclusion_slot : ℕ) (missed_slots : List ℕ) (roots : HashMap ℕ BlockRoot)
    (later : att_slot < inclusion_slot) (included : contains_key inclusion_slot roots ≡ true)
    (complement : (s : ℕ)
      → att_slot < s
      → s < inclusion_slot
      → contains missed_slots s ≡ not (contains_key s roots)) where
  between : ℕ
  between = inclusion_slot - (att_slot + 1)

  shared_out :
      count_by (contains missed_slots) (range (att_slot + 1) between)
        + count_by (λ s. contains_key s roots) (range (att_slot + 1) between)
      ≡ between
  unfolding between
  shared_out =
      count_by-complement (contains missed_slots) (λ s. contains_key s roots) (att_slot + 1) between
        (λ s a b. complement s (omega arith) (omega arith))

  live_counts_inclusion :
      live_effective_delay roots att_slot inclusion_slot
      ≡ suc (count_by (λ s. contains_key s roots) (range (att_slot + 1) between))
  unfolding live_effective_delay between
  live_counts_inclusion =
      ap (λ (n : ℕ). count_by (λ s. contains_key s roots) (range (att_slot + 1) n))
        (let e : inclusion_slot + 1 - (att_slot + 1) ≡ suc between = omega arith in e)
      ∙ count_by-range_last (λ s. contains_key s roots) (att_slot + 1) between
          (rw (let e : att_slot + 1 + between ≡ inclusion_slot = omega arith in e) included)

  -- The dense scan, which takes away the missed slots between the duty and the inclusion, and the
  -- live scan, which counts the blocks from behind the duty through the including one, store the
  -- same effective delay, where the slots between that have no block are the missed ones. It is
  -- at least 1 and at most the raw delay.
  pub effective_delay-agree :
      (effective_inclusion_delay att_slot inclusion_slot (inclusion_slot - att_slot) missed_slots
        ≡ live_effective_delay roots att_slot inclusion_slot)
      × (1 ≤ live_effective_delay roots att_slot inclusion_slot)
      × (live_effective_delay roots att_slot inclusion_slot ≤ inclusion_slot - att_slot)
  unfolding effective_inclusion_delay between
  effective_delay-agree = omega (arith, shared_out, live_counts_inclusion)
