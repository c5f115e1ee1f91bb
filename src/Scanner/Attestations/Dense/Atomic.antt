-- ===== src/Scanner/Attestations/Dense/Atomic.antt =====
-- A dense scan of an epoch (src/scanner/attestations/dense.rs) writes all rows or none.
use dabeacon_indexer.Prelude.{
  ℕ, Bool, String, List, [], ◌∷◌, contains, Option, HashMap, ◌≡◌, ◌≢◌, refl, Bool-cases, inl, inr,
}
use dabeacon_indexer.Error.{Result, ok, err, panic}
use dabeacon_indexer.Chain.{ChainSpec}
use dabeacon_indexer.Beacon.Types.{AttesterDuty, ValidatorAttestationReward}
use dabeacon_indexer.Beacon.Node.{BeaconNode}
use dabeacon_indexer.Scanner.Scan.{Scan, lift, ◌>>=◌, ◌>>◌, for_all}
use dabeacon_indexer.Scanner.Attestations.Decode.{Inclusions}
use dabeacon_indexer.Scanner.Attestations.Dense.{
  write_duty_row, write_duty_rows, process_epoch_attestation_duties,
}

-- A scan that does not succeed has written nothing.
abbrev pub IsAtomic : Scan (Unit {0}) → Type 0
IsAtomic m = m.1 ≢ ok tt → m.0 ≡ []

lift-IsAtomic :
    {A : Type 0} (r : Result A) (next : A → Scan (Unit {0}))
    → ((a : A) → IsAtomic (next a))
    → IsAtomic (lift r >>= next)
unfolding ◌>>=◌
lift-IsAtomic (ok a) next h = h a
lift-IsAtomic (err e) next h = λ failed. refl
lift-IsAtomic panic next h = λ failed. refl

>>-ok : (m k : Scan (Unit {0})) → m.1 ≡ ok tt → k.1 ≡ ok tt → (m >> k).1 ≡ ok tt
unfolding ◌>>=◌
>>-ok (written, ok u) k h later = later
>>-ok (written, err e) k h later = cc
>>-ok (written, panic) k h later = cc

for_all-ok :
    {A : Type 0} (step : A → Scan (Unit {0}))
    → ((a : A) → (step a).1 ≡ ok tt)
    → (xs : List A) → (for_all step xs).1 ≡ ok tt
unfolding for_all
for_all-ok step h [] = refl
for_all-ok step h (x ∷ xs) = >>-ok (step x) (for_all step xs) (h x) (for_all-ok step h xs)

module _ (spec : ChainSpec) (hex_decode : String → Option (List ℕ)) (node : BeaconNode) (epoch : ℕ)
    (scan_validators : List ℕ) (finalized : Bool) where
  row-ok :
      (given : HashMap ℕ ValidatorAttestationReward) (inclusions : Inclusions)
      (missed_slots : List ℕ) (assigned : AttesterDuty)
      → (write_duty_row epoch scan_validators finalized given inclusions missed_slots assigned).1
        ≡ ok tt
  unfolding write_duty_row
  row-ok given inclusions missed_slots assigned =
      elim (Bool-cases (contains scan_validators assigned.validator_index)) [
        | inl tracked ↦ rw (tracked, write_duty_row) refl
        | inr other ↦ rw (other, write_duty_row) refl
      ]

  -- A dense scan that fails, at whatever request, check or attestation, has written no row: the
  -- blocks, the duties and the rewards are fetched, checked and decoded before the first write.
  pub process_epoch_attestation_duties_atomic :
      (process_epoch_attestation_duties spec hex_decode node epoch scan_validators finalized).1
        ≢ ok tt
      → (process_epoch_attestation_duties spec hex_decode node epoch scan_validators finalized).0
        ≡ []
  unfolding process_epoch_attestation_duties write_duty_rows
  process_epoch_attestation_duties_atomic = lift-IsAtomic _ _ λ blocks.
      lift-IsAtomic _ _ λ committees. lift-IsAtomic _ _ λ ctx. lift-IsAtomic _ _ λ duties.
        lift-IsAtomic _ _ λ given. lift-IsAtomic _ _ λ checked.
          lift-IsAtomic _ _
            λ inclusions failed. absurd (failed (for_all-ok _ (row-ok _ inclusions _) duties))
