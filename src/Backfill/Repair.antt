-- ===== src/Backfill/Repair.antt =====
-- `repair_live_gaps` of src/backfill.rs: the newest epochs with gaps of the live worker are scanned
-- again, and a scan that fails leaves its gaps for later.
pub mod Marks
pub mod Newest
mod Examples
use dabeacon_indexer.Prelude.{
  Option, ℕ, zero, suc, ◌==◌, ltb, leb, if◌then◌else◌, Bool, true, ◌&&◌, not, String, List, [], ◌∷◌,
  map, contains, filter_by, pair_key,
}
use dabeacon_indexer.Error.{Result, ok, err, panic}
use dabeacon_indexer.Chain.{ChainSpec}
use dabeacon_indexer.Beacon.Node.{BeaconNode}
use dabeacon_indexer.Store.Tables.{Store, is_completed}
use dabeacon_indexer.Scanner.Scan.{Scan, after}
use dabeacon_indexer.Scanner.Epoch.{EffectiveScanMode, scan_epoch}

abbrev pub Repaired : Type 0
Repaired = Store × Result (Unit {0})

-- The gaps of tracked validators up to the target, without a completed scan.
unfoldable pub open_gaps : List ℕ → ℕ → Store → List (ℕ × ℕ)
open_gaps tracked target store =
    filter_by
      (λ (gap : ℕ × ℕ).
        contains tracked gap.0
        && (leb gap.1 target && not (is_completed store.completed_scans gap)))
      store.live_gaps

-- GROUP BY epoch ORDER BY epoch DESC
unfoldable pub insert_newest : ℕ → List ℕ → List ℕ
insert_newest epoch [] = epoch ∷ []
insert_newest epoch (e ∷ epochs) =
    let rest = insert_newest epoch epochs in
    if ltb e epoch then epoch ∷ e ∷ epochs else (if e == epoch then e ∷ epochs else e ∷ rest)

unfoldable pub newest_first : List (ℕ × ℕ) → List ℕ
newest_first [] = []
newest_first ((validator, epoch) ∷ gaps) = insert_newest epoch (newest_first gaps)

-- LIMIT
unfoldable pub limit : ℕ → List ℕ → List ℕ
limit zero epochs = []
limit (suc n) [] = []
limit (suc n) (epoch ∷ epochs) = epoch ∷ limit n epochs

unfoldable pub validators_in : List (ℕ × ℕ) → ℕ → List ℕ
validators_in gaps epoch =
    map (λ (gap : ℕ × ℕ). gap.0) (filter_by (λ (gap : ℕ × ℕ). gap.1 == epoch) gaps)

-- `if let Err(error) = ..`: an error is only logged.
abbrev pub tolerated : Result (Unit {0}) → Result (Unit {0})
tolerated (ok u) = ok u
tolerated (err e) = ok tt
tolerated panic = panic

abbrev pub then_repair : (Store → Repaired) → Repaired → Repaired
then_repair rest (store, ok u) = rest store
then_repair rest (store, err e) = (store, err e)
then_repair rest (store, panic) = (store, panic)

module _ (spec : ChainSpec) (hex_decode : String → Option (List ℕ)) (node : BeaconNode)
    (mode : EffectiveScanMode) where
  abbrev pub repair_scan : List (ℕ × ℕ) → ℕ → Scan (Unit {0})
  repair_scan gaps epoch =
      scan_epoch spec hex_decode node epoch (validators_in gaps epoch) true mode

  unfoldable pub repair_epoch : List (ℕ × ℕ) → ℕ → Store → Repaired
  repair_epoch gaps epoch store =
      let m = repair_scan gaps epoch in (after spec store m, tolerated m.1)

  unfoldable pub repair_epochs : List (ℕ × ℕ) → List ℕ → Store → Repaired
  repair_epochs gaps [] store = (store, ok tt)
  repair_epochs gaps (epoch ∷ epochs) store =
      then_repair (repair_epochs gaps epochs) (repair_epoch gaps epoch store)

  unfoldable pub repair_live_gaps : List ℕ → ℕ → Store → Repaired
  repair_live_gaps tracked target store =
      let gaps = open_gaps tracked target store in
      repair_epochs gaps (limit 8 (newest_first gaps)) store
