-- ===== src/Backfill/Pass/Step.antt =====
-- One epoch of a pass of src/backfill.rs: what a scan completes, and who is still due behind it.
use dabeacon_indexer.Prelude.{
  ℕ, ◌<◌, ◌==◌, ==_iff, leb, Bool, true, false, ◌&&◌, ◌||◌, String, List, [], ◌∷◌, contains,
  filter_by, Option, none, some, HashMap, lookup, nat_key, pair_key, ◌≡◌, refl, sym, ap, ◌∙◌, arith,
  Bool-cases, Option-cases, inl, inr,
}
use dabeacon_indexer.Error.{Result, ok, Result-cases}
use dabeacon_indexer.Chain.{ChainSpec}
use dabeacon_indexer.Beacon.Node.{BeaconNode}
use dabeacon_indexer.Store.Table.{update, lookup-update}
use dabeacon_indexer.Store.Tables.{Store, is_completed}
use dabeacon_indexer.Store.Completion.{is_scanned}
use dabeacon_indexer.Scanner.Scan.{after}
use dabeacon_indexer.Scanner.Epoch.{EffectiveScanMode, scan_epoch}
use dabeacon_indexer.Scanner.Epoch.Completion.{is_ok, scan_epoch-AreMarked}
use dabeacon_indexer.Backfill.Pass.{
  Config, ValidatorRow, Progress, compute_start, is_active, active_validators_at, scanned_row,
  scanned_entry, is_due, candidates, scanned, scan_some,
}

contains-chosen :
    (x v : ℕ) (rest : List ℕ) (b : Bool) {c : Bool}
    → contains rest v ≡ c
    → contains (elim b as (λ _. List ℕ) [ true ↦ x ∷ rest | false ↦ rest ]) v ≡ ((x == v && b) || c)
contains-chosen x v rest true h = ground arith
contains-chosen x v rest false h = ground arith

pub contains-filter_by :
    (f : ℕ → Bool) (xs : List ℕ) (v : ℕ) → contains (filter_by f xs) v ≡ (contains xs v && f v)
contains-filter_by f [] v = refl
contains-filter_by f (x ∷ xs) v =
    contains-chosen x v (filter_by f xs) (f x) (contains-filter_by f xs v)
    ∙ joined (x == v) (contains xs v) (λ same. ap f ((==_iff x v).0 same))
  where
    joined : (a b : Bool) → (a ≡ true → f x ≡ f v) → ((a && f x) || (b && f v)) ≡ ((a || b) && f v)
    joined true b e = rw (e refl) (absorb b (f v))
      where
        absorb : (b c : Bool) → (c || (b && c)) ≡ c
        absorb b c = ground arith
    joined false b e = refl

-- A validator that is due at a later epoch is still due there when an earlier one has been scanned.
entry_due :
    (non_contiguous : Bool) (depth : Option ℕ) (entry : ℕ × Option ℕ) (validators : List ℕ)
    (v epoch e : ℕ)
    → epoch < e
    → leb (compute_start non_contiguous depth entry) e ≡ true
    → leb (compute_start non_contiguous depth (scanned_entry validators epoch v entry)) e ≡ true
unfolding compute_start scanned_entry
entry_due true none (activation, last) validators v epoch e before h = ground arith
entry_due true (some d) (activation, last) validators v epoch e before h = ground arith
entry_due false none (activation, none) validators v epoch e before h = ground arith
entry_due false (some d) (activation, none) validators v epoch e before h = ground arith
entry_due false none (activation, some l) validators v epoch e before h = ground arith
entry_due false (some d) (activation, some l) validators v epoch e before h = ground arith

row_active :
    (validators : List ℕ) (v epoch e : ℕ) (row : ValidatorRow)
    → is_active e (some (scanned_row validators epoch v row)) ≡ is_active e (some row)
unfolding is_active scanned_row
row_active validators v epoch e row = elim (Bool-cases (contains validators v)) [
  | inl there ↦ rw (there, is_active, scanned_row) refl
  | inr other ↦ rw (other, is_active, scanned_row) refl
]

active_after :
    (validators : List ℕ) (v epoch e : ℕ) (rows : HashMap ℕ ValidatorRow)
    → is_active e (lookup v rows) ≡ true
    → is_active e (lookup v (update (scanned_row validators epoch) rows)) ≡ true
unfolding is_active
active_after validators v epoch e rows h = elim (Option-cases (lookup v rows)) [
  | inl missing ↦ cc (rw (missing, is_active) at h)
  | inr (row, there) ↦
      rw (lookup-update (scanned_row validators epoch) v row rows there)
        (row_active validators v epoch e row ∙ rw there at h)
]

module _ (spec : ChainSpec) (hex_decode : String → Option (List ℕ)) (node : BeaconNode)
    (mode : EffectiveScanMode) (config : Config) (non_contiguous : Bool) (tracked : List ℕ) where
  unfoldable pub step : Progress → ℕ → List ℕ → Progress × Result (Unit {0})
  step = scan_some spec hex_decode node mode config non_contiguous tracked

  -- After a successful scan the pairs it covers are completed, and so is what was.
  pub scan_some-is_completed :
      (p : Progress) (epoch : ℕ) (validators : List ℕ) (pair : ℕ × ℕ)
      → (step p epoch validators).1 ≡ ok tt
      → is_completed (step p epoch validators).0.store.completed_scans pair
        ≡ (is_scanned validators epoch pair || is_completed p.store.completed_scans pair)
  unfolding step scan_some scanned
  scan_some-is_completed p epoch [] pair h = refl
  scan_some-is_completed p epoch (v ∷ vs) pair h =
      let m = scan_epoch spec hex_decode node epoch (v ∷ vs) true mode in
      let marked =
        (scan_epoch-AreMarked spec hex_decode node epoch true mode p.store pair (v ∷ vs)).0 in
      elim (Result-cases m.1) [
        | inl (u, e) ↦ rw (e, scanned) (marked ∙ rw (e, is_ok) refl)
        | inr (inl (f, e)) ↦ cc (rw (e, scanned) at h)
        | inr (inr e) ↦ cc (rw (e, scanned) at h)
      ]

  -- A candidate for a later epoch stays one.
  abbrev pub IsCandidate : Progress → ℕ → ℕ → Type 0
  IsCandidate p e v = contains (candidates config non_contiguous p tracked e) v ≡ true

  pub candidates_lem :
      (p : Progress) (e v : ℕ)
      → contains (candidates config non_contiguous p tracked e) v ≡ (
          (contains tracked v && is_active e (lookup v p.validators))
          && is_due config non_contiguous e (lookup v p.scan_state))
  unfolding candidates active_validators_at
  candidates_lem p e v =
      contains-filter_by _ (filter_by (λ u. is_active e (lookup u p.validators)) tracked) v
      ∙ ap (λ (b : Bool). b && is_due config non_contiguous e (lookup v p.scan_state))
          (contains-filter_by _ tracked v)

  due_after :
      (validators : List ℕ) (v epoch e : ℕ) (state : HashMap ℕ (ℕ × Option ℕ))
      → epoch < e
      → is_due config non_contiguous e (lookup v state) ≡ true
      → is_due config non_contiguous e (lookup v (update (scanned_entry validators epoch) state))
        ≡ true
  unfolding is_due
  due_after validators v epoch e state before h = elim (Option-cases (lookup v state)) [
    | inl missing ↦ cc (rw (missing, is_due) at h)
    | inr (entry, there) ↦ rw (lookup-update (scanned_entry validators epoch) v entry state there) (
        entry_due non_contiguous config.max_backfill_depth entry validators v epoch e before
          (rw there at h))
  ]

  scanned-IsCandidate :
      (p : Progress) (store : Store) (validators : List ℕ) (epoch e v : ℕ)
      → epoch < e
      → IsCandidate p e v
      → IsCandidate
          (record {
            store = store;
            validators = update (scanned_row validators epoch) p.validators;
            scan_state = update (scanned_entry validators epoch) p.scan_state;
          })
          e
          v
  scanned-IsCandidate p store validators epoch e v before h =
      let was = sym (candidates_lem p e v) ∙ h in
      candidates_lem _ e v
      ∙ both (contains tracked v) _ _ (contains tracked v) _ _ was (λ t. t)
          (active_after validators v epoch e p.validators)
          (due_after validators v epoch e p.scan_state before)
    where
      both :
          (a b c a' b' c' : Bool)
          → ((a && b) && c) ≡ true
          → (a ≡ true → a' ≡ true)
          → (b ≡ true → b' ≡ true)
          → (c ≡ true → c' ≡ true)
          → ((a' && b') && c') ≡ true
      both true true true a' b' c' h f g k = rw (f refl, g refl, k refl) refl
      both false b c a' b' c' h f g k = cc
      both true false c a' b' c' h f g k = cc
      both true true false a' b' c' h f g k = cc

  pub scan_some-IsCandidate :
      (p : Progress) (epoch : ℕ) (validators : List ℕ) (e v : ℕ)
      → epoch < e
      → (step p epoch validators).1 ≡ ok tt
      → IsCandidate p e v
      → IsCandidate (step p epoch validators).0 e v
  unfolding step scan_some scanned
  scan_some-IsCandidate p epoch [] e v before h candidate = candidate
  scan_some-IsCandidate p epoch (w ∷ ws) e v before h candidate =
      let m = scan_epoch spec hex_decode node epoch (w ∷ ws) true mode in
      elim (Result-cases m.1) [
        | inl (u, done) ↦
            rw (done, scanned)
              (scanned-IsCandidate p (after spec p.store m) (w ∷ ws) epoch e v before candidate)
        | inr (inl (f, failed)) ↦ cc (rw (failed, scanned) at h)
        | inr (inr failed) ↦ cc (rw (failed, scanned) at h)
      ]
