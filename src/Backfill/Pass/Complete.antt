-- ===== src/Backfill/Pass/Complete.antt =====
-- A pass that succeeds (src/backfill.rs) has left no due epoch of a tracked validator unscanned.
use dabeacon_indexer.Prelude.{
  ℕ, zero, suc, ◌+◌, ◌-◌, ◌≤◌, ◌<◌, ◌==◌, ==_iff, ==_refl, ltb, le→leb, Bool, true, ◌&&◌, ◌||◌, not,
  String, List, [], ◌∷◌, contains, filter_by, Option, none, some, HashMap, lookup, nat_key,
  pair_key, ◌≡◌, refl, sym, ap, ◌∙◌, subst, arith, Bool-cases, inl, inr, some-inj,
}
use native.Mathlib.Nat.{le_trans}
use dabeacon_indexer.Error.{Result, ok, err, panic}
use dabeacon_indexer.Chain.{ChainSpec}
use dabeacon_indexer.Beacon.Node.{BeaconNode}
use dabeacon_indexer.Store.Tables.{is_completed}
use dabeacon_indexer.Store.Completion.{is_scanned, validators_with_completed_scan}
use dabeacon_indexer.Scanner.Epoch.{EffectiveScanMode}
use dabeacon_indexer.Backfill.Pass.{
  Config, ValidatorRow, Progress, compute_start, is_active, is_due, candidates, uncovered,
  pass_epoch, then_pass, run_pass, min_start, backfill_pass, least,
}
use dabeacon_indexer.Backfill.Pass.Step.{
  contains-filter_by, step, scan_some-is_completed, IsCandidate, candidates_lem,
  scan_some-IsCandidate,
}

least_le : (a : ℕ) (o : Option ℕ) → least a o ≤ a
least_le a none = omega arith
least_le a (some b) = ground arith

least-some_le : (a b : ℕ) → least a (some b) ≤ b
least-some_le a b = ground arith

-- The pass starts no later than any validator's start.
min_start_le :
    (non_contiguous : Bool) (depth : Option ℕ) (state : HashMap ℕ (ℕ × Option ℕ)) (v : ℕ)
    (entry : ℕ × Option ℕ)
    → lookup v state ≡ some entry
    → (s : ℕ) × (min_start non_contiguous depth state ≡ some s)
      × (s ≤ compute_start non_contiguous depth entry)
unfolding min_start lookup
min_start_le non_contiguous depth [] v entry h = cc
min_start_le non_contiguous depth ((w, found) ∷ state) v entry h = elim (Bool-cases (w == v)) [
  | inl same ↦ (
    least (compute_start non_contiguous depth found) (min_start non_contiguous depth state),
    refl,
    subst
        (λ t.
          least (compute_start non_contiguous depth found) (min_start non_contiguous depth state)
          ≤ compute_start non_contiguous depth t)
        (some-inj (rw same at h))
        (least_le (compute_start non_contiguous depth found)
          (min_start non_contiguous depth state)),
  )
  | inr other ↦
      let (s, found_min, below) = min_start_le non_contiguous depth state v entry (rw other at h) in
      (
        least (compute_start non_contiguous depth found) (some s),
        ap (λ (o : Option ℕ). some (least (compute_start non_contiguous depth found) o)) found_min,
        le_trans (least-some_le (compute_start non_contiguous depth found) s) below,
      )
]

module _ (spec : ChainSpec) (hex_decode : String → Option (List ℕ)) (node : BeaconNode)
    (mode : EffectiveScanMode) (config : Config) (non_contiguous : Bool) (tracked : List ℕ) where
  abbrev Candidate : Progress → ℕ → ℕ → Type 0
  Candidate p e v = IsCandidate spec hex_decode node mode config non_contiguous tracked p e v

  abbrev Completes : Progress × Result (Unit {0}) → ℕ × ℕ → Type 0
  Completes outcome pair = is_completed outcome.0.store.completed_scans pair ≡ true

  -- A candidate is left to scan, or its scan is complete.
  covered-or_scanned :
      (p : Progress) (epoch v : ℕ)
      → Candidate p epoch v
      → (is_scanned (uncovered config non_contiguous p tracked epoch) epoch (v, epoch)
          || is_completed p.store.completed_scans (v, epoch))
        ≡ true
  unfolding uncovered validators_with_completed_scan
  covered-or_scanned p epoch v candidate =
      let cands = candidates config non_contiguous p tracked epoch in
      let covered = filter_by (λ w. is_completed p.store.completed_scans (w, epoch)) cands in
      let known =
        contains-filter_by (λ w. is_completed p.store.completed_scans (w, epoch)) cands v in
      let left = contains-filter_by (λ w. not (contains covered w)) cands v in
      rw (left, known, candidate, ==_refl epoch)
        (excluded (is_completed p.store.completed_scans (v, epoch)))
    where
      excluded : (b : Bool) → (((true && not (true && b)) && true) || b) ≡ true
      excluded b = ground arith

  pass_epoch-Completes :
      (p : Progress) (epoch v : ℕ)
      → (pass_epoch spec hex_decode node mode config non_contiguous tracked p epoch).1 ≡ ok tt
      → Candidate p epoch v
      → Completes
          (pass_epoch spec hex_decode node mode config non_contiguous tracked p epoch)
          (v, epoch)
  unfolding pass_epoch step
  pass_epoch-Completes p epoch v h candidate =
      scan_some-is_completed spec hex_decode node mode config non_contiguous tracked p epoch
        (uncovered config non_contiguous p tracked epoch) (v, epoch) h
      ∙ covered-or_scanned p epoch v candidate

  pass_epoch-kept :
      (p : Progress) (epoch : ℕ) (pair : ℕ × ℕ)
      → (pass_epoch spec hex_decode node mode config non_contiguous tracked p epoch).1 ≡ ok tt
      → is_completed p.store.completed_scans pair ≡ true
      → Completes (pass_epoch spec hex_decode node mode config non_contiguous tracked p epoch) pair
  unfolding pass_epoch step
  pass_epoch-kept p epoch pair h done =
      scan_some-is_completed spec hex_decode node mode config non_contiguous tracked p epoch
        (uncovered config non_contiguous p tracked epoch) pair h
      ∙ rw done (or-true (is_scanned (uncovered config non_contiguous p tracked epoch) epoch pair))
    where
      or-true : (b : Bool) → (b || true) ≡ true
      or-true b = ground arith

  pass_epoch-IsCandidate :
      (p : Progress) (epoch e v : ℕ)
      → epoch < e
      → (pass_epoch spec hex_decode node mode config non_contiguous tracked p epoch).1 ≡ ok tt
      → Candidate p e v
      → Candidate (pass_epoch spec hex_decode node mode config non_contiguous tracked p epoch).0 e v
  unfolding pass_epoch step
  pass_epoch-IsCandidate p epoch e v before h =
      scan_some-IsCandidate spec hex_decode node mode config non_contiguous tracked p epoch
        (uncovered config non_contiguous p tracked epoch) e v before h

  -- What a pass that goes on behind a step has, if it succeeds.
  step-ok :
      (rest : Progress → Progress × Result (Unit {0})) (outcome : Progress × Result (Unit {0}))
      (Q : Progress × Result (Unit {0}) → Type 0)
      → (then_pass spec hex_decode node mode config non_contiguous tracked rest outcome).1 ≡ ok tt
      → (outcome.1 ≡ ok tt → (rest outcome.0).1 ≡ ok tt → Q (rest outcome.0))
      → Q (then_pass spec hex_decode node mode config non_contiguous tracked rest outcome)
  step-ok rest (p, ok u) Q h k = k refl h
  step-ok rest (p, err e) Q h k = cc
  step-ok rest (p, panic) Q h k = cc

  run : ℕ → ℕ → Progress → Progress × Result (Unit {0})
  run = run_pass spec hex_decode node mode config non_contiguous tracked

  run_pass-kept :
      (count epoch : ℕ) (p : Progress) (pair : ℕ × ℕ)
      → is_completed p.store.completed_scans pair ≡ true
      → (run count epoch p).1 ≡ ok tt
      → Completes (run count epoch p) pair
  unfolding run run_pass
  run_pass-kept zero epoch p pair done h = done
  run_pass-kept (suc count) epoch p pair done h =
      step-ok (run count (epoch + 1))
        (pass_epoch spec hex_decode node mode config non_contiguous tracked p epoch)
        (λ o. Completes o pair) h
        (λ first. run_pass-kept count (epoch + 1) _ pair (pass_epoch-kept p epoch pair first done))

  run_pass-Completes :
      (count epoch : ℕ) (p : Progress) (e v : ℕ)
      → epoch ≤ e
      → e < epoch + count
      → Candidate p e v
      → (run count epoch p).1 ≡ ok tt
      → Completes (run count epoch p) (v, e)
  unfolding run run_pass
  run_pass-Completes zero epoch p e v from to candidate h = absurd (omega arith)
  run_pass-Completes (suc count) epoch p e v from to candidate h =
      step-ok (run count (epoch + 1))
        (pass_epoch spec hex_decode node mode config non_contiguous tracked p epoch)
        (λ o. Completes o (v, e)) h
        (λ first. elim (Bool-cases (epoch == e)) [
          | inl here ↦
              run_pass-kept count (epoch + 1) _ (v, e)
                (subst
                  (λ k.
                    Completes
                      (pass_epoch spec hex_decode node mode config non_contiguous tracked p epoch)
                      (v, k))
                  ((==_iff epoch e).0 here)
                  (pass_epoch-Completes p epoch v first
                    (subst (λ k. Candidate p k v) (sym ((==_iff epoch e).0 here)) candidate)))
          | inr ahead ↦
              run_pass-Completes count (epoch + 1) _ e v (ground arith) (omega arith)
                (pass_epoch-IsCandidate p epoch e v (ground arith) first candidate)
        ])

  -- Who is tracked, active and due at an epoch is a candidate.
  due-IsCandidate :
      (p : Progress) (e v : ℕ) (row : ValidatorRow) (entry : ℕ × Option ℕ)
      → contains tracked v ≡ true
      → lookup v p.validators ≡ some row
      → row.activation_epoch ≤ e
      → ((exit : ℕ) → row.exit_epoch ≡ some exit → e < exit)
      → lookup v p.scan_state ≡ some entry
      → compute_start non_contiguous config.max_backfill_depth entry ≤ e
      → Candidate p e v
  unfolding is_active is_due
  due-IsCandidate p e v row entry there stored active still state due =
      candidates_lem spec hex_decode node mode config non_contiguous tracked p e v
      ∙ rw
          (
            there,
            stored,
            state,
            is_active,
            is_due,
            le→leb row.activation_epoch e active,
            le→leb (compute_start non_contiguous config.max_backfill_depth entry) e due,
          )
          (in_time row.exit_epoch still)
    where
      in_time :
          (exit : Option ℕ)
          → ((x : ℕ) → exit ≡ some x → e < x)
          → ((elim exit as (λ _. Bool) [ none ↦ true | some x ↦ ltb e x ]) && true) ≡ true
      in_time none h = refl
      in_time (some x) h = let later_exit = h x refl in ground arith

-- Where a pass through the target succeeds, every epoch up to the target in which a tracked validator
-- is active, and that is not before the validator's start, is recorded as completely scanned.
pub backfill_pass_completes :
    (spec : ChainSpec) (hex_decode : String → Option (List ℕ)) (node : BeaconNode)
    (mode : EffectiveScanMode) (config : Config) (non_contiguous : Bool) (tracked : List ℕ)
    (p : Progress) (target e v : ℕ) (row : ValidatorRow) (entry : ℕ × Option ℕ)
    → contains tracked v ≡ true
    → lookup v p.validators ≡ some row
    → row.activation_epoch ≤ e
    → ((exit : ℕ) → row.exit_epoch ≡ some exit → e < exit)
    → lookup v p.scan_state ≡ some entry
    → compute_start non_contiguous config.max_backfill_depth entry ≤ e
    → e ≤ target
    → (backfill_pass spec hex_decode node mode config non_contiguous tracked target p).1 ≡ ok tt
    → let end = backfill_pass spec hex_decode node mode config non_contiguous tracked target p in
      is_completed end.0.store.completed_scans (v, e) ≡ true
unfolding backfill_pass run
backfill_pass_completes spec hex_decode node mode config non_contiguous tracked p target e v row
      entry there stored active still state due within h =
    let (start, first, before) =
      min_start_le non_contiguous config.max_backfill_depth p.scan_state v entry state in
    rw (first, backfill_pass)
      (run_pass-Completes spec hex_decode node mode config non_contiguous tracked
        (target + 1 - start) start p e v (le_trans before due) (omega arith)
        (due-IsCandidate spec hex_decode node mode config non_contiguous tracked p e v row entry
          there stored active still state due)
        (rw (first, backfill_pass) at h))
