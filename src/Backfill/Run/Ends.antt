-- ===== src/Backfill/Run/Ends.antt =====
-- `run_backfill` of src/backfill.rs ends where finality stays bounded.
use dabeacon_indexer.Prelude.{
  ℕ, zero, suc, ◌+◌, ◌-◌, ◌≤◌, leb, leb-false→lt, Bool, true, false, String, List, Option, none,
  some, ◌≡◌, refl, arith, Bool-cases, inl, inr,
}
use dabeacon_indexer.Error.{Result, ok, err, panic}
use dabeacon_indexer.Chain.{ChainSpec, finalized_scan_target}
use dabeacon_indexer.Beacon.Node.{BeaconNode}
use dabeacon_indexer.Scanner.Epoch.{EffectiveScanMode}
use dabeacon_indexer.Backfill.Pass.{Config, Progress, min_start}
use dabeacon_indexer.Backfill.Run.{
  Ended, swept, is_past, Loop, advanced, extended, after_pass, backfill_loop, run_backfill,
}

-- The rounds that a sweep still to come takes.
abbrev sweeps : Bool → ℕ
sweeps true = 1
sweeps false = 0

abbrev Returns : Option Ended → Type 0
Returns o = (end : Ended) × (o ≡ some end)

-- The loop returns where `fuel` is one round more than the bound on the rounds to come.
abbrev ReturnsWithin : ℕ → ℕ → Loop → Type 0
ReturnsWithin bound fuel go =
    (k : ℕ) (non_contiguous : Bool) (target : ℕ) (p : Progress)
    → sweeps non_contiguous + (bound - target) + 1 ≤ fuel
    → Returns (go k non_contiguous target p)

target_le : (c : ℕ) {t : ℕ} → finalized_scan_target c ≡ some t → t ≤ c
unfolding finalized_scan_target
target_le c h = ground arith

module _ (bound fuel : ℕ) (go : Loop) (ih : ReturnsWithin bound fuel go) where
  advanced-Returns :
      (k target : ℕ) (p : Progress) (new : Option ℕ)
      → ((t : ℕ) → new ≡ some t → t ≤ bound)
      → (bound - target) + 1 ≤ suc fuel
      → Returns (advanced go k target p new)
  unfolding advanced
  advanced-Returns k target p none below enough = ((p, ok tt), refl)
  advanced-Returns k target p (some t) below enough = elim (Bool-cases (leb t target)) [
    | inl caught_up ↦ rw (caught_up, advanced) ((p, ok tt), refl)
    | inr ahead ↦
        let more = leb-false→lt t target ahead in
        let within = below t refl in rw (ahead, advanced) (ih (k + 1) false t p (omega arith))
  ]

  extended-Returns :
      (k target : ℕ) (p : Progress) (answer : Result ℕ)
      → ((c : ℕ) → answer ≡ ok c → c ≤ bound)
      → (bound - target) + 1 ≤ suc fuel
      → Returns (extended go k target p answer)
  unfolding extended
  extended-Returns k target p (ok c) below enough =
      advanced-Returns k target p (finalized_scan_target c)
        (λ t h. let a = target_le c h in let b = below c refl in omega arith) enough
  extended-Returns k target p (err e) below enough = ((p, err e), refl)
  extended-Returns k target p panic below enough = ((p, panic), refl)

  module _ (checkpoints : ℕ → Result ℕ) (extend : Bool)
      (bounded : (k c : ℕ) → checkpoints k ≡ ok c → c ≤ bound) where
    after_pass-Returns :
        (k : ℕ) (non_contiguous : Bool) (target : ℕ) (out : Ended)
        → sweeps non_contiguous + (bound - target) + 1 ≤ suc fuel
        → Returns (after_pass checkpoints extend go k non_contiguous target out)
    unfolding after_pass
    after_pass-Returns k true target (p, ok u) enough =
        ih k false target (swept p target) (omega arith)
    after_pass-Returns k false target (p, ok u) enough = elim (Bool-cases extend) [
      | inl go_on ↦
          rw (go_on, after_pass)
            (extended-Returns k target p (checkpoints k) (bounded k) (omega arith))
      | inr stop ↦ rw (stop, after_pass) ((p, ok tt), refl)
    ]
    after_pass-Returns k true target (p, err e) enough = ((p, err e), refl)
    after_pass-Returns k false target (p, err e) enough = ((p, err e), refl)
    after_pass-Returns k true target (p, panic) enough = ((p, panic), refl)
    after_pass-Returns k false target (p, panic) enough = ((p, panic), refl)

module _ (spec : ChainSpec) (hex_decode : String → Option (List ℕ)) (node : BeaconNode)
    (mode : EffectiveScanMode) (config : Config) (checkpoints : ℕ → Result ℕ) (extend : Bool)
    (bound : ℕ) (bounded : (k c : ℕ) → checkpoints k ≡ ok c → c ≤ bound) where
  backfill_loop-Returns :
      (fuel : ℕ)
      → ReturnsWithin bound fuel
          (backfill_loop checkpoints extend spec hex_decode node mode config fuel)
  unfolding backfill_loop
  backfill_loop-Returns zero k non_contiguous target p enough = absurd (omega arith)
  backfill_loop-Returns (suc fuel) k non_contiguous target p enough =
      elim (Bool-cases
        (is_past target (min_start non_contiguous config.max_backfill_depth p.scan_state))) [
          | inl past ↦ rw (past, backfill_loop) ((p, ok tt), refl)
          | inr due ↦
              rw (due, backfill_loop)
                (after_pass-Returns bound fuel
                  (backfill_loop checkpoints extend spec hex_decode node mode config fuel)
                  (backfill_loop-Returns fuel) checkpoints extend bounded k non_contiguous target _
                  enough)
        ]

  -- Where no checkpoint that the node reports lies behind the bound, the backfill ends, with success,
  -- an error or a panic, after at most two passes more than there are epochs from the initial target
  -- to the bound.
  pub run_backfill_ends :
      (initial_target_epoch : ℕ) (p : Progress)
      → (end : Ended) × (run_backfill checkpoints extend spec hex_decode node mode config
            ((bound - initial_target_epoch) + 2)
            initial_target_epoch
            p
          ≡ some end)
  unfolding run_backfill
  run_backfill_ends initial_target_epoch p =
      backfill_loop-Returns ((bound - initial_target_epoch) + 2) 0 config.non_contiguous_backfill
        initial_target_epoch p (enough config.non_contiguous_backfill)
    where
      enough :
          (b : Bool)
          → sweeps b + (bound - initial_target_epoch) + 1 ≤ (bound - initial_target_epoch) + 2
      enough true = omega arith
      enough false = omega arith
