-- ===== src/Scanner/Epoch/Completion.antt =====
-- Which scans are recorded as complete (`scan_epoch` of src/scanner/mod.rs).
use dabeacon_indexer.Prelude.{
  ℕ, if◌then◌else◌, Bool, true, false, ◌&&◌, ◌||◌, not, String, List, [], ◌∷◌, ◌++◌, any, Option,
  pair_key, pair_same, All, ◌≡◌, refl, sym, ap, ◌∙◌, subst, arith,
}
use dabeacon_indexer.Error.{Result, ok, err, panic}
use dabeacon_indexer.Chain.{ChainSpec}
use dabeacon_indexer.Beacon.Node.{BeaconNode}
use dabeacon_indexer.Store.Tables.{Store, is_completed}
use dabeacon_indexer.Store.Duties.{upsert_attestation_duty}
use dabeacon_indexer.Store.Production.{upsert_block_proposal, upsert_sync_duty}
use dabeacon_indexer.Store.Completion.{is_scanned, mark_complete}
use dabeacon_indexer.Store.Completion.Exact.{is_completed-mark_complete}
use dabeacon_indexer.Store.Writes.{
  Write, duty, rewards, repair, complete, proposal, sync, apply, apply_all,
}
use dabeacon_indexer.Scanner.Scan.{Scan, done, write, after, ◌>>=◌, ◌>>◌}
use dabeacon_indexer.Scanner.Epoch.{EffectiveScanMode, scan_stages, scan_tracked, scan_epoch}
use dabeacon_indexer.Scanner.Epoch.Scope.{IsOf}
use dabeacon_indexer.Scanner.Epoch.SyncScope.{scan_stages-IsOf}

-- The completed scans and the gaps.
abbrev pub Marks : Type 0
Marks = List (ℕ × ℕ) × List (ℕ × ℕ)

abbrev pub marks : Store → Marks
marks store = (store.completed_scans, store.live_gaps)

module _ (spec : ChainSpec) where
  apply_all-append :
      (store : Store) (xs ys : List Write)
      → apply_all spec store (xs ++ ys) ≡ apply_all spec (apply_all spec store xs) ys
  unfolding apply_all
  apply_all-append store [] ys = refl
  apply_all-append store (x ∷ xs) ys = apply_all-append (apply spec store x) xs ys

  module _ (epoch : ℕ) (validators : List ℕ) (finalized : Bool) where
    marks-apply :
        (store : Store) (w : Write)
        → IsOf spec epoch validators finalized w
        → marks (apply spec store w) ≡ marks store
    unfolding apply upsert_attestation_duty upsert_block_proposal upsert_sync_duty
    marks-apply store (duty key columns) h = refl
    marks-apply store (rewards batch) h = elim h [ ]
    marks-apply store (repair key details) h = elim h [ ]
    marks-apply store (complete tracked e) h = elim h [ ]
    marks-apply store (proposal slot columns) h = refl
    marks-apply store (sync key columns) h = refl

    marks-apply_all :
        (store : Store) (ws : List Write)
        → All (IsOf spec epoch validators finalized) ws
        → marks (apply_all spec store ws) ≡ marks store
    unfolding apply_all
    marks-apply_all store [] h = refl
    marks-apply_all store (w ∷ ws) h =
        marks-apply_all (apply spec store w) ws h.1 ∙ marks-apply store w h.0

-- The pair counts as completed, or as a gap.
abbrev completed_of : Marks → ℕ × ℕ → Bool
completed_of (scans, gaps) pair = is_completed scans pair

abbrev gap_of : Marks → ℕ × ℕ → Bool
gap_of (scans, gaps) pair = any (pair_same pair) gaps

-- Against `before`, exactly the covered pairs are marked, and taken from the gaps.
abbrev pub AreMarked : Bool → ℕ × ℕ → Store → Store → Type 0
AreMarked covered pair before store =
    (is_completed store.completed_scans pair
      ≡ (covered || is_completed before.completed_scans pair))
    × (any (pair_same pair) store.live_gaps
        ≡ (any (pair_same pair) before.live_gaps && not covered))

abbrev pub is_ok : Result (Unit {0}) → Bool
is_ok (ok u) = true
is_ok _ = false

pub unmarked :
    (pair : ℕ × ℕ) (before store : Store)
    → marks store ≡ marks before
    → AreMarked false pair before store
unmarked pair before store e = (
  ap (λ (m : Marks). completed_of m pair) e,
  ap (λ (m : Marks). gap_of m pair) e ∙ and-true (any (pair_same pair) before.live_gaps),
)
  where
    and-true : (b : Bool) → b ≡ (b && true)
    and-true b = ground arith

newly_marked :
    (pair : ℕ × ℕ) (before store : Store) (validators : List ℕ) (epoch : ℕ)
    → marks store ≡ marks before
    → AreMarked
        (is_scanned validators epoch pair)
        pair
        before
        (mark_complete store validators epoch)
newly_marked pair before store validators epoch e =
    let exact = is_completed-mark_complete store validators epoch pair in
    let same = unmarked pair before store e in
    (
      exact.0
          ∙ ap (λ (b : Bool). is_scanned validators epoch pair || b)
              (ap (λ (m : Marks). completed_of m pair) e),
      exact.1
          ∙ ap (λ (b : Bool). b && not (is_scanned validators epoch pair))
              (ap (λ (m : Marks). gap_of m pair) e),
    )

module _ (spec : ChainSpec) (epoch : ℕ) (validators : List ℕ) (pair : ℕ × ℕ) (store : Store) where
  complete_last :
      (written : List Write)
      → apply_all spec store (written ++ (complete validators epoch ∷ []))
        ≡ mark_complete (apply_all spec store written) validators epoch
  unfolding apply_all apply
  complete_last written = apply_all-append spec store written (complete validators epoch ∷ [])

  marked_after :
      (finalized : Bool) (stages : Scan (Unit {0}))
      → All (IsOf spec epoch validators finalized) stages.0
      → let m = stages >> (if finalized then write (complete validators epoch) else done) in
        AreMarked
          (is_ok m.1 && (finalized && is_scanned validators epoch pair))
          pair
          store
          (after spec store m)
  unfolding ◌>>=◌ after
  marked_after finalized (written, err e) h =
      unmarked pair store (apply_all spec store written)
        (marks-apply_all spec epoch validators finalized store written h)
  marked_after finalized (written, panic) h =
      unmarked pair store (apply_all spec store written)
        (marks-apply_all spec epoch validators finalized store written h)
  marked_after true (written, ok u) h =
      subst (AreMarked (is_scanned validators epoch pair) pair store) (sym (complete_last written))
        (newly_marked pair store (apply_all spec store written) validators epoch
          (marks-apply_all spec epoch validators true store written h))
  marked_after false (written, ok u) h =
      unmarked pair store (apply_all spec store (written ++ [])) (
        ap marks (apply_all-append spec store written [])
        ∙ (unfold apply_all in marks-apply_all spec epoch validators false store written h))

module _ (spec : ChainSpec) (hex_decode : String → Option (List ℕ)) (node : BeaconNode) (epoch : ℕ)
    (finalized : Bool) (mode : EffectiveScanMode) (store : Store) (pair : ℕ × ℕ) where
  -- The marks behind a scan, by its own result.
  pub scan_epoch-AreMarked :
      (validators : List ℕ)
      → let m = scan_epoch spec hex_decode node epoch validators finalized mode in
        AreMarked
          (is_ok m.1 && (finalized && is_scanned validators epoch pair))
          pair
          store
          (after spec store m)
  unfolding scan_epoch scan_tracked
  scan_epoch-AreMarked [] =
      unfold after apply_all in
      subst (λ b. AreMarked b pair store store) (nothing finalized) (unmarked pair store store refl)
    where
      nothing : (b : Bool) → false ≡ (b && false)
      nothing b = ground arith
  scan_epoch-AreMarked (v ∷ vs) =
      marked_after spec epoch (v ∷ vs) pair store finalized
        (scan_stages spec hex_decode node epoch (v ∷ vs) finalized mode)
        (scan_stages-IsOf spec epoch (v ∷ vs) finalized hex_decode node mode)
