-- ===== src/Store/Completion/Exact.antt =====
-- What `mark_complete` records (src/db/scanner/completion.rs).
use dabeacon_indexer.Prelude.{
  ℕ, Bool, true, not, List, [], ◌∷◌, any, filter_by, pair_same, pair_same_iff, ==_iff, Bool-cases,
  inl, inr, sym, ap₂, ◌≡◌, ◌&&◌, ◌||◌, ◌==◌, refl, ap, arith,
}
use dabeacon_indexer.Store.Tables.{Store, is_completed}
use dabeacon_indexer.Store.Completion.{is_scanned, insert_scans, mark_complete}

is_completed-insert_scans :
    (validators : List ℕ) (epoch : ℕ) (scans : List (ℕ × ℕ)) (pair : ℕ × ℕ)
    → is_completed (insert_scans validators epoch scans) pair
      ≡ (is_scanned validators epoch pair || is_completed scans pair)
unfolding insert_scans is_completed
is_completed-insert_scans [] epoch scans pair = refl
is_completed-insert_scans (v ∷ vs) epoch scans (p, q) =
    elim (Bool-cases (is_completed scans (v, epoch))) [
      | inl done ↦
          let rest = is_completed-insert_scans vs epoch scans (p, q) in
          rw done (ground (arith, rest, here, done))
      | inr open_scan ↦
          let rest = is_completed-insert_scans vs epoch ((v, epoch) ∷ scans) (p, q) in
          rw open_scan (ground (arith, rest, open_scan))
    ]
  where
    here :
        (v == p) ≡ true
        → (q == epoch) ≡ true
        → is_completed scans (v, epoch) ≡ is_completed scans (p, q)
    here e f =
        ap₂ (λ (a b : ℕ). is_completed scans (a, b)) ((==_iff v p).0 e) (sym ((==_iff q epoch).0 f))

pub any-filter_by :
    (keep : ℕ × ℕ → Bool) (pair : ℕ × ℕ) (gaps : List (ℕ × ℕ))
    → any (pair_same pair) (filter_by keep gaps) ≡ (any (pair_same pair) gaps && keep pair)
any-filter_by keep pair [] = refl
any-filter_by keep pair (gap ∷ gaps) =
    let rest = any-filter_by keep pair gaps in ground (arith, rest, here)
  where
    here : pair_same pair gap ≡ true → keep gap ≡ keep pair
    here same = ap keep (sym ((pair_same_iff pair gap).0 same))

-- After a scan is marked, a pair of a validator and an epoch counts as completed exactly when the
-- scan covers it or it was completed before, and as a gap exactly when it was one and the scan
-- does not cover it.
pub is_completed-mark_complete :
    (store : Store) (validators : List ℕ) (epoch : ℕ) (pair : ℕ × ℕ)
    → (is_completed (mark_complete store validators epoch).completed_scans pair
        ≡ (is_scanned validators epoch pair || is_completed store.completed_scans pair))
      × (any (pair_same pair) (mark_complete store validators epoch).live_gaps
          ≡ (any (pair_same pair) store.live_gaps && not (is_scanned validators epoch pair)))
unfolding mark_complete
is_completed-mark_complete store validators epoch pair = (
  is_completed-insert_scans validators epoch store.completed_scans pair,
  any-filter_by _ pair store.live_gaps,
)
