-- ===== src/Backfill/Run.antt =====
-- `run_backfill` of src/backfill.rs: passes until the target is reached and finality no longer moves,
-- after one non-contiguous sweep where the configuration asks for it. The loop runs on fuel; the nth
-- request for the finalized checkpoint is answered by `checkpoints n`.
pub mod Ends
use dabeacon_indexer.Prelude.{
  ℕ, zero, suc, ◌+◌, ltb, leb, if◌then◌else◌, Bool, true, false, String, List, map, Option, none,
  some, nat_key,
}
use dabeacon_indexer.Error.{Result, ok, err, panic}
use dabeacon_indexer.Chain.{ChainSpec, finalized_scan_target}
use dabeacon_indexer.Beacon.Node.{BeaconNode}
use dabeacon_indexer.Store.Table.{update}
use dabeacon_indexer.Scanner.Epoch.{EffectiveScanMode}
use dabeacon_indexer.Backfill.Pass.{
  Config, Progress, min_start, active_validators_at, scanned_row, scanned_entry, backfill_pass,
}

abbrev pub Ended : Type 0
Ended = Progress × Result (Unit {0})

-- `validator_scan_state.keys()`.
abbrev pub tracked_indices : Progress → List ℕ
tracked_indices p = map (λ (entry : ℕ × (ℕ × Option ℕ)). entry.0) p.scan_state

-- After the non-contiguous sweep the active validators count as scanned through the target.
unfoldable pub swept : Progress → ℕ → Progress
swept p target =
    let active_at_target = active_validators_at p.validators (tracked_indices p) target in
    record {
      store = p.store;
      validators = update (scanned_row active_at_target target) p.validators;
      scan_state = update (scanned_entry active_at_target target) p.scan_state;
    }

-- `min_start > target_finalized_epoch`, or no validator.
abbrev pub is_past : ℕ → Option ℕ → Bool
is_past target none = true
is_past target (some start) = ltb target start

-- The rest of the loop, `go`, on the next request, the pending sweep, the target and the progress.
abbrev pub Loop : Type 0
Loop = ℕ → Bool → ℕ → Progress → Option Ended

unfoldable pub advanced : Loop → ℕ → ℕ → Progress → Option ℕ → Option Ended
advanced go k target p none = some (p, ok tt)
advanced go k target p (some new_target) =
    if leb new_target target then some (p, ok tt) else go (k + 1) false new_target p

unfoldable pub extended : Loop → ℕ → ℕ → Progress → Result ℕ → Option Ended
extended go k target p (ok checkpoint) = advanced go k target p (finalized_scan_target checkpoint)
extended go k target p (err e) = some (p, err e)
extended go k target p panic = some (p, panic)

module _ (checkpoints : ℕ → Result ℕ) (extend_on_finality_advance : Bool) where
  unfoldable pub after_pass : Loop → ℕ → Bool → ℕ → Ended → Option Ended
  after_pass go k true target (p, ok u) = go k false target (swept p target)
  after_pass go k false target (p, ok u) =
      if extend_on_finality_advance then extended go k target p (checkpoints k) else some (p, ok tt)
  after_pass go k non_contiguous target (p, err e) = some (p, err e)
  after_pass go k non_contiguous target (p, panic) = some (p, panic)

  module _ (spec : ChainSpec) (hex_decode : String → Option (List ℕ)) (node : BeaconNode)
      (mode : EffectiveScanMode) (config : Config) where
    unfoldable pub backfill_loop : ℕ → Loop
    backfill_loop zero k non_contiguous target p = none
    backfill_loop (suc fuel) k non_contiguous target p =
        elim (is_past target (min_start non_contiguous config.max_backfill_depth p.scan_state)) [
          | true ↦ some (p, ok tt)
          | false ↦ after_pass (backfill_loop fuel) k non_contiguous target (
              backfill_pass spec hex_decode node mode config non_contiguous (tracked_indices p)
                target p)
        ]

    unfoldable pub run_backfill : ℕ → ℕ → Progress → Option Ended
    run_backfill fuel initial_target_epoch p =
        backfill_loop fuel 0 config.non_contiguous_backfill initial_target_epoch p
