-- ===== src/Scanner/Proposals/Range.antt =====
-- Which rewards `persist_live_proposal_rewards` of src/scanner/proposals.rs stores, against what the
-- scan of an epoch stores.
use dabeacon_indexer.Prelude.{
  i64_bound, as_i64, ℕ, ◌+◌, ◌<◌, ltb, lt→ltb, [], none, false, some, ◌⊎◌, ◌≡◌, refl, arith,
  Bool-cases, inl, inr, ltb→lt,
}
use dabeacon_indexer.Error.{ok, err, inconsistent_beacon_data}
use dabeacon_indexer.Chain.{u64_modulus, wrap64}
use dabeacon_indexer.Beacon.Types.{BlockRewards}
use dabeacon_indexer.Store.Writes.{proposal}
use dabeacon_indexer.Scanner.Scan.{Scan, write, ◌>>=◌}
use dabeacon_indexer.Scanner.Proposals.{
  signed_reward, checked_add, rewarded_proposal, persist_live_proposal_rewards,
}

-- Every amount is one of an `i64`.
abbrev pub IsInRange : BlockRewards → Type 0
IsInRange r =
    (r.total < i64_bound)
    × (r.attestations < i64_bound)
    × (r.sync_aggregate < i64_bound)
    × (r.proposer_slashings + r.attester_slashings < i64_bound)

signed_reward-fits : (n : ℕ) → n < i64_bound → signed_reward n ≡ ok (as_i64 n)
unfolding signed_reward as_i64
signed_reward-fits n h = rw (lt→ltb n i64_bound h) refl

fits_u64 : (n : ℕ) → n < i64_bound → n < u64_modulus
fits_u64 n h = omega arith

wrap64-id : (n : ℕ) → n < i64_bound → wrap64 n ≡ n
wrap64-id n h = omega arith

stored :
    (slot : ℕ) (r : BlockRewards)
    → IsInRange r
    → persist_live_proposal_rewards slot r
      ≡ write (proposal slot (rewarded_proposal r.proposer_index r false))
unfolding persist_live_proposal_rewards ◌>>=◌ checked_add
stored slot r (total, atts, sync, slashed) =
    let sum = r.proposer_slashings + r.attester_slashings in
    rw
      (
        lt→ltb sum u64_modulus (fits_u64 sum slashed),
        signed_reward-fits r.total total,
        signed_reward-fits r.attestations atts,
        signed_reward-fits r.sync_aggregate sync,
        signed_reward-fits sum slashed,
        wrap64-id sum slashed,
      )
      refl

-- An amount that no `i64` holds.
exceeds : (n : ℕ) → ltb n i64_bound ≡ false → n < i64_bound → ⊥
exceeds n h k = ground arith

signed_reward-exceeds :
    (n : ℕ) → ltb n i64_bound ≡ false → signed_reward n ≡ err inconsistent_beacon_data
unfolding signed_reward
signed_reward-exceeds n h = rw h refl

-- Nothing is written, and the scan fails.
abbrev pub refused : Scan (Unit {0})
refused = ([], err inconsistent_beacon_data)

abbrev pub IsRefused : ℕ → BlockRewards → Type 0
IsRefused slot r = (IsInRange r → ⊥) × (persist_live_proposal_rewards slot r ≡ refused)

signed_reward-cases :
    (n : ℕ)
    → ((n < i64_bound) × (signed_reward n ≡ ok (as_i64 n)))
      ⊎ ((n < i64_bound → ⊥) × (signed_reward n ≡ err inconsistent_beacon_data))
signed_reward-cases n = elim (Bool-cases (ltb n i64_bound)) [
  | inl small ↦ let fits = ltb→lt n i64_bound small in inl (fits, signed_reward-fits n fits)
  | inr large ↦ inr (exceeds n large, signed_reward-exceeds n large)
]

checked_add-cases :
    (a b : ℕ)
    → (checked_add a b ≡ some (a + b)) ⊎ ((a + b < i64_bound → ⊥) × (checked_add a b ≡ none))
unfolding checked_add
checked_add-cases a b = elim (Bool-cases (ltb (a + b) u64_modulus)) [
  | inl fits ↦ inl (rw fits refl)
  | inr large ↦ inr (too_large (a + b) large, rw large refl)
]
  where
    too_large : (n : ℕ) → ltb n u64_modulus ≡ false → n < i64_bound → ⊥
    too_large n h k = ground arith

-- Rewards are stored as the scan of an epoch stores them where every amount, the sum of the slashings
-- included, is in the range of an `i64`; where one is not, nothing is written and the call fails.
pub persist_live_proposal_rewards-agree :
    (slot : ℕ) (r : BlockRewards)
    → (IsInRange r
        × (persist_live_proposal_rewards slot r
            ≡ write (proposal slot (rewarded_proposal r.proposer_index r false))))
      ⊎ IsRefused slot r
unfolding persist_live_proposal_rewards ◌>>=◌
persist_live_proposal_rewards-agree slot r =
    let sum = r.proposer_slashings + r.attester_slashings in
    elim (checked_add-cases r.proposer_slashings r.attester_slashings) [
      | inr (large, none_left) ↦ inr (λ h. large h.3, rw none_left refl)
      | inl added ↦ elim (signed_reward-cases r.total) [
        | inr (large, fails) ↦ inr (λ h. large h.0, rw (added, fails) refl)
        | inl (total, signed₁) ↦ elim (signed_reward-cases r.attestations) [
          | inr (large, fails) ↦ inr (λ h. large h.1, rw (added, signed₁, fails) refl)
          | inl (atts, signed₂) ↦ elim (signed_reward-cases r.sync_aggregate) [
            | inr (large, fails) ↦ inr (λ h. large h.2, rw (added, signed₁, signed₂, fails) refl)
            | inl (sync, signed₃) ↦ elim (signed_reward-cases sum) [
              | inr (large, fails) ↦
                  inr (λ h. large h.3, rw (added, signed₁, signed₂, signed₃, fails) refl)
              | inl (slashed, signed₄) ↦
                  let h : IsInRange r = (total, atts, sync, slashed) in inl (h, stored slot r h)
            ]
          ]
        ]
      ]
    ]
