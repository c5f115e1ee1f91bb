-- ===== src/Backfill/Pass.antt =====
-- src/backfill.rs: one pass over the epochs up to the finalized target, with the queries of
-- src/db/scanner/validators.rs that it makes. Heartbeats, progress reports and update events are left
-- out.
pub mod Step
pub mod Complete
mod Examples
use dabeacon_indexer.Prelude.{
  ℕ, zero, suc, ◌+◌, ◌-◌, ltb, leb, max, if◌then◌else◌, Bool, true, false, ◌&&◌, not, String, List,
  [], ◌∷◌, contains, filter_by, Option, none, some, HashMap, lookup, nat_key,
}
use dabeacon_indexer.Error.{Error, Result, ok, err, panic, backfill_epoch}
use dabeacon_indexer.Chain.{ChainSpec}
use dabeacon_indexer.Beacon.Node.{BeaconNode}
use dabeacon_indexer.Store.Table.{update}
use dabeacon_indexer.Store.Tables.{Store}
use dabeacon_indexer.Store.Completion.{validators_with_completed_scan}
use dabeacon_indexer.Scanner.Scan.{Scan, after}
use dabeacon_indexer.Scanner.Epoch.{EffectiveScanMode, scan_epoch}

-- The settings that a pass reads.
pub record Config : Type 0 where
  pub non_contiguous_backfill : Bool
  pub max_backfill_depth : Option ℕ

-- A row of `validators`, by validator.
pub record ValidatorRow : Type 0 where
  pub activation_epoch : ℕ
  pub exit_epoch : Option ℕ
  pub last_scanned_epoch : Option ℕ

-- By validator, its activation epoch and the last epoch scanned.
abbrev pub ScanState : Type 0
ScanState = HashMap ℕ (ℕ × Option ℕ)

pub record Progress : Type 0 where
  pub store : Store
  pub validators : HashMap ℕ ValidatorRow
  pub scan_state : ScanState

abbrev pub start_base : Bool → ℕ → Option ℕ → ℕ
start_base true activation last_scanned = activation
start_base false activation none = activation
start_base false activation (some last) = max (last + 1) activation

unfoldable pub compute_start : Bool → Option ℕ → ℕ × Option ℕ → ℕ
compute_start non_contiguous none (activation, last_scanned) =
    start_base non_contiguous activation last_scanned
compute_start non_contiguous (some depth) (activation, last_scanned) =
    max (start_base non_contiguous activation last_scanned) depth

abbrev pub least : ℕ → Option ℕ → ℕ
least a none = a
least a (some b) = if ltb b a then b else a

-- `values().map(compute_start).min()`.
unfoldable pub min_start : Bool → Option ℕ → ScanState → Option ℕ
min_start non_contiguous depth [] = none
min_start non_contiguous depth ((validator, entry) ∷ state) =
    some (least (compute_start non_contiguous depth entry) (min_start non_contiguous depth state))

unfoldable pub earliest_epoch_to_scan : Config → ScanState → Option ℕ
earliest_epoch_to_scan config state =
    min_start config.non_contiguous_backfill config.max_backfill_depth state

-- activation_epoch <= epoch AND (exit_epoch IS NULL OR exit_epoch > epoch)
unfoldable pub is_active : ℕ → Option ValidatorRow → Bool
is_active epoch none = false
is_active epoch (some row) =
    leb row.activation_epoch epoch
    && (elim row.exit_epoch [ none ↦ true | some exit ↦ ltb epoch exit ])

unfoldable pub active_validators_at : HashMap ℕ ValidatorRow → List ℕ → ℕ → List ℕ
active_validators_at validators tracked epoch =
    filter_by (λ v. is_active epoch (lookup v validators)) tracked

abbrev pub later : ℕ → Option ℕ → ℕ
later epoch none = epoch
later epoch (some prev) = max prev epoch

unfoldable pub scanned_row : List ℕ → ℕ → ℕ → ValidatorRow → ValidatorRow
scanned_row validators epoch v row =
    if contains validators v
    then record row { last_scanned_epoch = some (later epoch row.last_scanned_epoch) }
    else row

unfoldable pub scanned_entry : List ℕ → ℕ → ℕ → ℕ × Option ℕ → ℕ × Option ℕ
scanned_entry validators epoch v (activation, last_scanned) =
    if contains validators v
    then (activation, some (later epoch last_scanned))
    else (activation, last_scanned)

module _ (config : Config) (non_contiguous : Bool) where
  -- `epoch >= compute_start(activation, last_scanned)`, where the validator has a state.
  unfoldable pub is_due : ℕ → Option (ℕ × Option ℕ) → Bool
  is_due epoch none = false
  is_due epoch (some entry) =
      leb (compute_start non_contiguous config.max_backfill_depth entry) epoch

  unfoldable pub candidates : Progress → List ℕ → ℕ → List ℕ
  candidates p tracked epoch =
      filter_by (λ v. is_due epoch (lookup v p.scan_state))
        (active_validators_at p.validators tracked epoch)

  -- The candidates whose scan of the epoch is not complete.
  unfoldable pub uncovered : Progress → List ℕ → ℕ → List ℕ
  uncovered p tracked epoch =
      let candidate_ids = candidates p tracked epoch in
      let covered = validators_with_completed_scan p.store candidate_ids epoch in
      filter_by (λ v. not (contains covered v)) candidate_ids

-- A scan of the epoch that is done: the watermarks follow it, or its error names the epoch.
unfoldable pub scanned :
    ChainSpec → Progress → ℕ → List ℕ → Scan (Unit {0}) → Progress × Result (Unit {0})
scanned spec p epoch validators m = elim m.1 [
  | ok u ↦ (
    record {
      store = after spec p.store m;
      validators = update (scanned_row validators epoch) p.validators;
      scan_state = update (scanned_entry validators epoch) p.scan_state;
    },
    ok tt,
  )
  | err e ↦ (
    record { store = after spec p.store m; validators = p.validators; scan_state = p.scan_state },
    err (backfill_epoch epoch e),
  )
  | panic ↦ (
    record { store = after spec p.store m; validators = p.validators; scan_state = p.scan_state },
    panic,
  )
]

module _ (spec : ChainSpec) (hex_decode : String → Option (List ℕ)) (node : BeaconNode)
    (mode : EffectiveScanMode) (config : Config) (non_contiguous : Bool) (tracked : List ℕ) where
  unfoldable pub scan_some : Progress → ℕ → List ℕ → Progress × Result (Unit {0})
  scan_some p epoch [] = (p, ok tt)
  scan_some p epoch (v ∷ vs) =
      scanned spec p epoch (v ∷ vs) (scan_epoch spec hex_decode node epoch (v ∷ vs) true mode)

  -- The body of the loop over the epochs.
  unfoldable pub pass_epoch : Progress → ℕ → Progress × Result (Unit {0})
  pass_epoch p epoch = scan_some p epoch (uncovered config non_contiguous p tracked epoch)

  abbrev pub then_pass :
      (Progress → Progress × Result (Unit {0}))
      → Progress × Result (Unit {0})
      → Progress × Result (Unit {0})
  then_pass rest (p, ok u) = rest p
  then_pass rest (p, err e) = (p, err e)
  then_pass rest (p, panic) = (p, panic)

  -- `count` epochs from `epoch` on.
  unfoldable pub run_pass : ℕ → ℕ → Progress → Progress × Result (Unit {0})
  run_pass zero epoch p = (p, ok tt)
  run_pass (suc count) epoch p = then_pass (run_pass count (epoch + 1)) (pass_epoch p epoch)

  -- One pass through the target epoch, from the earliest start of a validator on.
  unfoldable pub backfill_pass : ℕ → Progress → Progress × Result (Unit {0})
  backfill_pass target p = elim (min_start non_contiguous config.max_backfill_depth p.scan_state) [
    | none ↦ (p, ok tt)
    | some start ↦ run_pass (target + 1 - start) start p
  ]
