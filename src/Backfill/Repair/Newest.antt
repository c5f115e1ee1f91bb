-- ===== src/Backfill/Repair/Newest.antt =====
-- Which epochs a repair of the live gaps (src/backfill.rs) takes up.
use dabeacon_indexer.Prelude.{
  ℕ, String, Option, ◌≤◌, sym, zero, suc, ◌<◌, ◌==◌, ==_iff, ltb, ltb→lt, if◌then◌else◌, subst, ap,
  ◌∙◌, Bool, true, false, ◌||◌, List, [], ◌∷◌, any, contains, length, All, All-imp, ◌≡◌, refl,
  arith, Bool-cases, inl, inr, ◌⊎◌,
}
use native.Mathlib.Nat.{lt_trans}
use dabeacon_indexer.Store.Tables.{Store}
use dabeacon_indexer.Chain.{ChainSpec}
use dabeacon_indexer.Beacon.Node.{BeaconNode}
use dabeacon_indexer.Scanner.Epoch.{EffectiveScanMode}
use dabeacon_indexer.Backfill.Repair.{
  open_gaps, insert_newest, newest_first, limit, repair_epochs, repair_live_gaps,
}

-- Each epoch of the list is later than those behind it.
pub AreFalling : List ℕ → Type 0
AreFalling [] = Unit
AreFalling (epoch ∷ epochs) = All (λ e. e < epoch) epochs × AreFalling epochs

-- The three ways an insertion goes.
pick :
    (P : List ℕ → Type 0) (later same : Bool) (a b c : List ℕ)
    → (later ≡ true → P a)
    → (same ≡ true → P b)
    → (later ≡ false → same ≡ false → P c)
    → P (if later then a else (if same then b else c))
pick P true same a b c h i k = h refl
pick P false true a b c h i k = i refl
pick P false false a b c h i k = k refl refl

insert_newest-All :
    (bound epoch : ℕ) (epochs : List ℕ)
    → epoch < bound
    → All (λ e. e < bound) epochs
    → All (λ e. e < bound) (insert_newest epoch epochs)
unfolding insert_newest
insert_newest-All bound epoch [] h k = (h, tt)
insert_newest-All bound epoch (e ∷ epochs) h k =
    let rest = insert_newest-All bound epoch epochs h k.1 in
    pick (All (λ f. f < bound)) (ltb e epoch) (e == epoch) (epoch ∷ e ∷ epochs) (e ∷ epochs)
      (e ∷ insert_newest epoch epochs) (λ _. (h, k)) (λ _. k) (λ _ _. (k.0, rest))

earlier : (e epoch : ℕ) → ltb e epoch ≡ false → (e == epoch) ≡ false → epoch < e
earlier e epoch not_later not_same = ground arith

insert_newest-AreFalling :
    (epoch : ℕ) (epochs : List ℕ) → AreFalling epochs → AreFalling (insert_newest epoch epochs)
unfolding insert_newest AreFalling
insert_newest-AreFalling epoch [] h = (tt, tt)
insert_newest-AreFalling epoch (e ∷ epochs) h =
    let rest = insert_newest-AreFalling epoch epochs h.1 in
    pick AreFalling (ltb e epoch) (e == epoch) (epoch ∷ e ∷ epochs) (e ∷ epochs)
      (e ∷ insert_newest epoch epochs)
      (λ later.
        let lt = ltb→lt e epoch later in ((lt, All-imp epochs (λ f g. lt_trans g lt) h.0), h))
      (λ _. h)
      (λ not_later not_same.
        (insert_newest-All e epoch epochs (earlier e epoch not_later not_same) h.0, rest))

contains-insert_newest :
    (epoch : ℕ) (epochs : List ℕ) (e : ℕ)
    → contains (insert_newest epoch epochs) e ≡ (epoch == e || contains epochs e)
unfolding insert_newest
contains-insert_newest epoch [] e = refl
contains-insert_newest epoch (f ∷ epochs) e =
    let rest = contains-insert_newest epoch epochs e in ground (arith, rest)

newest_first-AreFalling : (gaps : List (ℕ × ℕ)) → AreFalling (newest_first gaps)
unfolding newest_first AreFalling
newest_first-AreFalling [] = tt
newest_first-AreFalling ((v, epoch) ∷ gaps) =
    insert_newest-AreFalling epoch (newest_first gaps) (newest_first-AreFalling gaps)

contains-newest_first :
    (gaps : List (ℕ × ℕ)) (e : ℕ)
    → contains (newest_first gaps) e ≡ any (λ (gap : ℕ × ℕ). gap.1 == e) gaps
unfolding newest_first
contains-newest_first [] e = refl
contains-newest_first ((v, epoch) ∷ gaps) e =
    let here = contains-insert_newest epoch (newest_first gaps) e in
    let rest = contains-newest_first gaps e in ground (arith, here, rest)

behind_head : (a b : Bool) → (a || b) ≡ true → a ≡ false → b ≡ true
behind_head a b h k = ground arith

first : (a b : Bool) → a ≡ true → (a || b) ≡ true
first a b h = ground arith

second : (a b : Bool) → b ≡ true → (a || b) ≡ true
second a b h = ground arith

contains-All :
    (P : ℕ → Type 0) (epochs : List ℕ) (e : ℕ) → All P epochs → contains epochs e ≡ true → P e
contains-All P [] e h k = cc
contains-All P (f ∷ epochs) e h k = elim (Bool-cases (f == e)) [
  | inl same ↦ subst P ((==_iff f e).0 same) h.0
  | inr other ↦ contains-All P epochs e h.1 (behind_head (f == e) (contains epochs e) k other)
]

limit_lem :
    (n : ℕ) (epochs : List ℕ) (e : ℕ)
    → AreFalling epochs
    → contains epochs e ≡ true
    → (contains (limit n epochs) e ≡ true)
      ⊎ ((length (limit n epochs) ≡ n) × All (λ f. e < f) (limit n epochs))
unfolding limit AreFalling
limit_lem zero epochs e h k = inr (refl, tt)
limit_lem (suc n) [] e h k = cc
limit_lem (suc n) (f ∷ epochs) e h k = elim (Bool-cases (f == e)) [
  | inl same ↦ inl (first (f == e) (contains (limit n epochs) e) same)
  | inr other ↦
      let behind = behind_head (f == e) (contains epochs e) k other in
      elim (limit_lem n epochs e h.1 behind) [
        | inl chosen ↦ inl (second (f == e) (contains (limit n epochs) e) chosen)
        | inr full ↦ inr (ap suc full.0, (contains-All (λ g. g < f) epochs e h.0 behind, full.1))
      ]
]

limit-All : (P : ℕ → Type 0) (n : ℕ) (epochs : List ℕ) → All P epochs → All P (limit n epochs)
unfolding limit
limit-All P zero epochs h = tt
limit-All P (suc n) [] h = tt
limit-All P (suc n) (f ∷ epochs) h = (h.0, limit-All P n epochs h.1)

limit-AreFalling : (n : ℕ) (epochs : List ℕ) → AreFalling epochs → AreFalling (limit n epochs)
unfolding limit AreFalling
limit-AreFalling zero epochs h = tt
limit-AreFalling (suc n) [] h = tt
limit-AreFalling (suc n) (f ∷ epochs) h =
    (limit-All (λ e. e < f) n epochs h.0, limit-AreFalling n epochs h.1)

length-limit : (n : ℕ) (epochs : List ℕ) → length (limit n epochs) ≤ n
unfolding limit
length-limit zero epochs = omega arith
length-limit (suc n) [] = omega arith
length-limit (suc n) (f ∷ epochs) = omega (arith, length-limit n epochs)

contains-limit :
    (n : ℕ) (epochs : List ℕ) (e : ℕ)
    → contains epochs e ≡ false
    → contains (limit n epochs) e ≡ false
unfolding limit
contains-limit zero epochs e h = refl
contains-limit (suc n) [] e h = refl
contains-limit (suc n) (f ∷ epochs) e h =
    let rest = contains-limit n epochs e (neither (f == e) (contains epochs e) h) in
    tail_free (f == e) (contains epochs e) (contains (limit n epochs) e) h rest
  where
    neither : (a b : Bool) → (a || b) ≡ false → b ≡ false
    neither a b k = ground arith

    tail_free : (a b c : Bool) → (a || b) ≡ false → c ≡ false → (a || c) ≡ false
    tail_free a b c k l = ground arith

-- The epoch is one of the chosen and has a gap, or is not and has none, or is not because `count`
-- epochs are chosen that are all later.
abbrev pub IsTaken : ℕ → List (ℕ × ℕ) → List ℕ → ℕ → Type 0
IsTaken count gaps chosen epoch =
    ((contains chosen epoch ≡ true) × (any (λ (gap : ℕ × ℕ). gap.1 == epoch) gaps ≡ true))
    ⊎ ((contains chosen epoch ≡ false)
        × ((any (λ (gap : ℕ × ℕ). gap.1 == epoch) gaps ≡ false)
            ⊎ ((length chosen ≡ count) × All (λ e. epoch < e) chosen)))

limit-IsTaken :
    (count : ℕ) (gaps : List (ℕ × ℕ)) (epoch : ℕ)
    → IsTaken count gaps (limit count (newest_first gaps)) epoch
limit-IsTaken count gaps epoch =
    let known = contains-newest_first gaps epoch in
    elim (Bool-cases (contains (newest_first gaps) epoch)) [
      | inr free ↦ inr (contains-limit count (newest_first gaps) epoch free, inl (sym known ∙ free))
      | inl there ↦ elim (Bool-cases (contains (limit count (newest_first gaps)) epoch)) [
        | inl chosen ↦ inl (chosen, sym known ∙ there)
        | inr left_out ↦
            elim (limit_lem count (newest_first gaps) epoch (newest_first-AreFalling gaps) there) [
              | inl chosen ↦ let clash : false ≡ true = sym left_out ∙ chosen in cc
              | inr full ↦ inr (left_out, inr full)
            ]
      ]
    ]

-- A repair goes over a list of at most eight epochs, each once and the later first: an epoch of an
-- open gap is in it, unless it has eight epochs that are all later, and no other epoch is.
pub repair_live_gaps-newest :
    (spec : ChainSpec) (hex_decode : String → Option (List ℕ)) (node : BeaconNode)
    (mode : EffectiveScanMode) (tracked : List ℕ) (target : ℕ) (store : Store) (epoch : ℕ)
    → let gaps = open_gaps tracked target store in
      let chosen = limit 8 (newest_first gaps) in
      (repair_live_gaps spec hex_decode node mode tracked target store
        ≡ repair_epochs spec hex_decode node mode gaps chosen store)
      × (length chosen ≤ 8)
      × AreFalling chosen
      × IsTaken 8 gaps chosen epoch
unfolding repair_live_gaps
repair_live_gaps-newest spec hex_decode node mode tracked target store epoch =
    let gaps = open_gaps tracked target store in
    (
      refl,
      length-limit 8 (newest_first gaps),
      limit-AreFalling 8 (newest_first gaps) (newest_first-AreFalling gaps),
      limit-IsTaken 8 gaps epoch,
    )
