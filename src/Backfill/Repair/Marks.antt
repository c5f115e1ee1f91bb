-- ===== src/Backfill/Repair/Marks.antt =====
-- What a repair of the live gaps (src/backfill.rs) records as complete.
use dabeacon_indexer.Prelude.{
  ℕ, ◌==◌, ==_iff, ==_refl, Bool, true, false, ◌&&◌, ◌||◌, String, List, [], ◌∷◌, any, contains,
  Option, pair_same, ◌≡◌, ◌≢◌, refl, sym, subst, arith, Bool-cases, inl, inr,
}
use dabeacon_indexer.Error.{Result, ok, err, panic}
use dabeacon_indexer.Chain.{ChainSpec}
use dabeacon_indexer.Beacon.Node.{BeaconNode}
use dabeacon_indexer.Store.Tables.{Store}
use dabeacon_indexer.Store.Completion.{is_scanned}
use dabeacon_indexer.Scanner.Scan.{after}
use dabeacon_indexer.Scanner.Epoch.{EffectiveScanMode}
use dabeacon_indexer.Scanner.Epoch.Completion.{AreMarked, is_ok, unmarked, scan_epoch-AreMarked}
use dabeacon_indexer.Backfill.Repair.{
  Repaired, open_gaps, newest_first, limit, validators_in, tolerated, then_repair, repair_scan,
  repair_epoch, repair_epochs, repair_live_gaps,
}

contains-validators_in :
    (gaps : List (ℕ × ℕ)) (v epoch : ℕ)
    → contains (validators_in gaps epoch) v ≡ any (pair_same (v, epoch)) gaps
unfolding validators_in
contains-validators_in [] v epoch = refl
contains-validators_in ((a, e) ∷ gaps) v epoch =
    let later = contains-validators_in gaps v epoch in ground (arith, later)

-- Marks add up.
marked_twice :
    (first second : Bool) (pair : ℕ × ℕ) (s₀ s₁ s₂ : Store)
    → AreMarked first pair s₀ s₁
    → AreMarked second pair s₁ s₂
    → AreMarked (first || second) pair s₀ s₂
marked_twice first second pair s₀ s₁ s₂ h k = (ground (arith, h.0, k.0), ground (arith, h.1, k.1))

module _ (spec : ChainSpec) (hex_decode : String → Option (List ℕ)) (node : BeaconNode)
    (mode : EffectiveScanMode) (gaps : List (ℕ × ℕ)) (pair : ℕ × ℕ) where
  -- The pair is a gap whose scan succeeds.
  abbrev pub is_repaired : Bool
  is_repaired =
      any (pair_same pair) gaps && is_ok (repair_scan spec hex_decode node mode gaps pair.1).1

  abbrev marks_in : ℕ → Bool
  marks_in epoch =
      is_ok (repair_scan spec hex_decode node mode gaps epoch).1
      && (true && is_scanned (validators_in gaps epoch) epoch pair)

  marks_in-same : marks_in pair.1 ≡ is_repaired
  marks_in-same =
      let known = contains-validators_in gaps pair.0 pair.1 in
      let here = ==_refl pair.1 in ground (arith, known, here)

  marks_in-other : (epoch : ℕ) → (epoch == pair.1) ≡ false → marks_in epoch ≡ false
  marks_in-other epoch other = ground arith

  marks_in_lem :
      (epoch : ℕ) (epochs : List ℕ)
      → (marks_in epoch || (contains epochs pair.1 && is_repaired))
        ≡ (contains (epoch ∷ epochs) pair.1 && is_repaired)
  marks_in_lem epoch epochs = elim (Bool-cases (epoch == pair.1)) [
    | inl same ↦
        let here =
          subst (λ e. marks_in e ≡ is_repaired) (sym ((==_iff epoch pair.1).0 same))
            marks_in-same in
        joined_same (marks_in epoch) is_repaired (contains epochs pair.1) (epoch == pair.1) here
          same
    | inr other ↦
        joined_other (marks_in epoch) is_repaired (contains epochs pair.1) (epoch == pair.1)
          (marks_in-other epoch other) other
  ]
    where
      joined_same : (m r c e : Bool) → m ≡ r → e ≡ true → (m || (c && r)) ≡ ((e || c) && r)
      joined_same m r c e h same = ground arith

      joined_other : (m r c e : Bool) → m ≡ false → e ≡ false → (m || (c && r)) ≡ ((e || c) && r)
      joined_other m r c e h other = ground arith

  -- The epoch's marks, and those of the epochs after it.
  marked_next :
      (epoch : ℕ) (epochs : List ℕ) (before store : Store) (end : Repaired)
      → AreMarked (marks_in epoch) pair before store
      → AreMarked (contains epochs pair.1 && is_repaired) pair store end.0
      → AreMarked (contains (epoch ∷ epochs) pair.1 && is_repaired) pair before end.0
  marked_next epoch epochs before store end h k =
      subst (λ b. AreMarked b pair before end.0) (marks_in_lem epoch epochs)
        (marked_twice (marks_in epoch) (contains epochs pair.1 && is_repaired) pair before store
          end.0 h k)

  -- After the epoch's scan, an error of which is only logged, the rest of the epochs is scanned.
  then_repair-AreMarked :
      (epoch : ℕ) (epochs : List ℕ) (rest : Store → Repaired)
      → ((store : Store)
          → (rest store).1 ≢ panic
          → AreMarked (contains epochs pair.1 && is_repaired) pair store (rest store).0)
      → (r : Result (Unit {0})) (before store : Store)
      → AreMarked (marks_in epoch) pair before store
      → (then_repair rest (store, tolerated r)).1 ≢ panic
      → AreMarked
          (contains (epoch ∷ epochs) pair.1 && is_repaired)
          pair
          before
          (then_repair rest (store, tolerated r)).0
  then_repair-AreMarked epoch epochs rest later (ok u) before store h done =
      marked_next epoch epochs before store (rest store) h (later store done)
  then_repair-AreMarked epoch epochs rest later (err e) before store h done =
      marked_next epoch epochs before store (rest store) h (later store done)
  then_repair-AreMarked epoch epochs rest later panic before store h done = absurd (done refl)

  repair_epochs-AreMarked :
      (epochs : List ℕ) (store : Store)
      → (repair_epochs spec hex_decode node mode gaps epochs store).1 ≢ panic
      → AreMarked
          (contains epochs pair.1 && is_repaired)
          pair
          store
          (repair_epochs spec hex_decode node mode gaps epochs store).0
  unfolding repair_epochs repair_epoch
  repair_epochs-AreMarked [] store h = unmarked pair store store refl
  repair_epochs-AreMarked (epoch ∷ epochs) store h =
      then_repair-AreMarked epoch epochs (repair_epochs spec hex_decode node mode gaps epochs)
        (repair_epochs-AreMarked epochs) (repair_scan spec hex_decode node mode gaps epoch).1 store
        (after spec store (repair_scan spec hex_decode node mode gaps epoch))
        (scan_epoch-AreMarked spec hex_decode node epoch true mode store pair
          (validators_in gaps epoch))
        h

-- A repair that no panic ends has recorded as complete, beside what was, exactly the open gaps of the
-- chosen epochs whose own scan succeeds, and taken just these from the gaps: a scan that fails does
-- not keep the others from their repair.
pub repair_live_gaps-AreMarked :
    (spec : ChainSpec) (hex_decode : String → Option (List ℕ)) (node : BeaconNode)
    (mode : EffectiveScanMode) (tracked : List ℕ) (target : ℕ) (store : Store) (pair : ℕ × ℕ)
    → (repair_live_gaps spec hex_decode node mode tracked target store).1 ≢ panic
    → let gaps = open_gaps tracked target store in
      AreMarked
        (contains (limit 8 (newest_first gaps)) pair.1
          && is_repaired spec hex_decode node mode gaps pair)
        pair
        store
        (repair_live_gaps spec hex_decode node mode tracked target store).0
unfolding repair_live_gaps
repair_live_gaps-AreMarked spec hex_decode node mode tracked target store pair h =
    let gaps = open_gaps tracked target store in
    repair_epochs-AreMarked spec hex_decode node mode gaps pair (limit 8 (newest_first gaps)) store
      h
