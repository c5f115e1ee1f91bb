-- ===== src/Scanner/Epoch/SyncScope.antt =====
-- What `process_epoch_sync` of src/scanner/sync_committee.rs writes, and all stages of `scan_epoch`
-- (src/scanner/mod.rs) together.
use dabeacon_indexer.Prelude.{
  ℕ, ◌==◌, ==_iff, leb, Bool, true, false, String, List, [], ◌∷◌, contains, filter_by, Option, none,
  some, ℤ, All, ◌≡◌, refl, subst, Bool-cases, inl, inr,
}
use dabeacon_indexer.Error.{Result, ok, >>=-eq-ok, ok-injective}
use dabeacon_indexer.Chain.{ChainSpec, epoch_start_slot}
use dabeacon_indexer.Beacon.Types.{SignedBeaconBlock, SyncAggregate}
use dabeacon_indexer.Beacon.Node.{BeaconNode}
use dabeacon_indexer.Scanner.Scan.Laws.{All->>=, All-for_all, All-if, All-range}
use dabeacon_indexer.Scanner.Attestations.RootMap.{Blocks, fetch_blocks_for_slots}
use dabeacon_indexer.Scanner.SyncCommittee.{Outcome, sync_outcomes}
use dabeacon_indexer.Scanner.SyncCommittee.Probe.{aggregate_of}
use dabeacon_indexer.Scanner.SyncCommittee.Epoch.{
  relevant_of, write_outcome, write_missed_member, write_aggregate_outcomes, process_sync_slot,
  process_relevant, process_members, process_epoch_sync,
}
use dabeacon_indexer.Scanner.Epoch.{
  EffectiveScanMode, dense, sparse, scan_attestations, scan_stages,
}
use dabeacon_indexer.Scanner.Epoch.Scope.{
  All-trivial, IsSlotOf, IsOf, dense_IsOf, sparse_IsOf, proposals_IsOf,
}

fetch_blocks-All :
    (get_block : ℕ → Result (Option SignedBeaconBlock)) (Q : ℕ → Type 0) (slots : List ℕ)
    (blocks : Blocks)
    → All Q slots
    → fetch_blocks_for_slots get_block slots ≡ ok blocks
    → All (λ entry. Q entry.0) blocks
unfolding fetch_blocks_for_slots
fetch_blocks-All get_block Q [] blocks q h =
    subst (λ (b : Blocks). All (λ entry. Q entry.0) b) (ok-injective h) tt
fetch_blocks-All get_block Q (slot ∷ slots) blocks q h =
    let (block, asked, more) = >>=-eq-ok (get_block slot) _ h in
    let (rest, fetched, last) = >>=-eq-ok (fetch_blocks_for_slots get_block slots) _ more in
    subst (λ (b : Blocks). All (λ entry. Q entry.0) b) (ok-injective last)
      (q.0, fetch_blocks-All get_block Q slots rest q.1 fetched)

filtered-All :
    (Q : ℕ → Type 0) (x : ℕ) (rest : List ℕ) (b : Bool)
    → (b ≡ true → Q x)
    → All Q rest
    → All Q (elim b as (λ _. List ℕ) [ true ↦ x ∷ rest | false ↦ rest ])
filtered-All Q x rest true h q = (h refl, q)
filtered-All Q x rest false h q = q

All-filter_by : (p : ℕ → Bool) (xs : List ℕ) → All (λ x. p x ≡ true) (filter_by p xs)
All-filter_by p [] = tt
All-filter_by p (x ∷ xs) =
    filtered-All (λ y. p y ≡ true) x (filter_by p xs) (p x) (λ e. e) (All-filter_by p xs)

contains-All : (Q : ℕ → Type 0) (xs : List ℕ) (v : ℕ) → All Q xs → contains xs v ≡ true → Q v
contains-All Q [] v q h = cc
contains-All Q (x ∷ xs) v q h = elim (Bool-cases (x == v)) [
  | inl e ↦ subst Q ((==_iff x v).0 e) q.0
  | inr e ↦ contains-All Q xs v q.1 (rw e at h)
]

module _ (spec : ChainSpec) (epoch : ℕ) (validators : List ℕ) (finalized : Bool) where
  abbrev P : List ℕ → Type 0
  P members = All (λ v. contains validators v ≡ true) members

  outcome_IsOf :
      (relevant committee : List ℕ) (magnitude : Option ℤ) (slot : ℕ) (entry : ℕ × Outcome)
      → P relevant
      → IsSlotOf spec epoch validators finalized slot
      → All
          (IsOf spec epoch validators finalized)
          (write_outcome relevant committee magnitude finalized slot entry).0
  unfolding write_outcome
  outcome_IsOf relevant committee magnitude slot (validator, (participated, net)) tracked within =
      All-if (IsOf spec epoch validators finalized) (contains relevant validator) _
        λ there. ((contains-All _ relevant validator tracked there, within, refl), tt)

  aggregate_IsOf :
      (relevant committee : List ℕ) (magnitude : Option ℤ) (slot : ℕ)
      (hex_decode : String → Option (List ℕ)) (aggregate : Option SyncAggregate)
      → P relevant
      → IsSlotOf spec epoch validators finalized slot
      → All
          (IsOf spec epoch validators finalized)
          (write_aggregate_outcomes relevant committee magnitude finalized slot spec hex_decode
            aggregate).0
  unfolding write_aggregate_outcomes
  aggregate_IsOf relevant committee magnitude slot hex_decode none tracked within = tt
  aggregate_IsOf relevant committee magnitude slot hex_decode (some aggregate) tracked within =
      All->>= (IsOf spec epoch validators finalized) _ _ tt λ bits _.
        All-for_all (IsOf spec epoch validators finalized) (λ _. Unit {0}) _
          (λ entry _. outcome_IsOf relevant committee magnitude slot entry tracked within)
          (sync_outcomes committee bits) (All-trivial (sync_outcomes committee bits))

  sync_slot_IsOf :
      (relevant committee : List ℕ) (magnitude : Option ℤ) (slot : ℕ)
      (hex_decode : String → Option (List ℕ)) (block : Option SignedBeaconBlock)
      → P relevant
      → IsSlotOf spec epoch validators finalized slot
      → All
          (IsOf spec epoch validators finalized)
          (process_sync_slot relevant committee magnitude finalized slot spec hex_decode block).0
  unfolding process_sync_slot write_missed_member
  sync_slot_IsOf relevant committee magnitude slot hex_decode none tracked within =
      All-for_all (IsOf spec epoch validators finalized) (λ v. contains validators v ≡ true) _
        (λ v there. ((there, within, refl), tt)) relevant tracked
  sync_slot_IsOf relevant committee magnitude slot hex_decode (some block) tracked within =
      aggregate_IsOf relevant committee magnitude slot hex_decode (aggregate_of (some block))
        tracked within

  relevant_IsOf :
      (hex_decode : String → Option (List ℕ)) (node : BeaconNode) (committee relevant : List ℕ)
      → P relevant
      → All
          (IsOf spec epoch validators finalized)
          (process_relevant spec hex_decode node epoch finalized committee relevant).0
  unfolding process_relevant
  relevant_IsOf hex_decode node committee [] tracked = tt
  relevant_IsOf hex_decode node committee (v ∷ vs) tracked =
      All->>= (IsOf spec epoch validators finalized) _ _ tt λ blocks fetched.
        All->>= (IsOf spec epoch validators finalized) _ _ tt λ magnitude _.
          All->>= (IsOf spec epoch validators finalized) _ _
            (All-for_all (IsOf spec epoch validators finalized)
              (λ entry. IsSlotOf spec epoch validators finalized entry.0) _
              (λ entry within.
                sync_slot_IsOf (v ∷ vs) committee magnitude entry.0 hex_decode entry.1 tracked
                  within)
              blocks
              (fetch_blocks-All node.get_block (IsSlotOf spec epoch validators finalized) _ blocks
                (All-range (IsSlotOf spec epoch validators finalized) (epoch_start_slot spec epoch)
                  spec.slots_per_epoch (λ t a b. (a, b)))
                fetched))
            (λ _ _. tt)

  members_IsOf :
      (hex_decode : String → Option (List ℕ)) (node : BeaconNode) (duties : List ℕ)
      → All
          (IsOf spec epoch validators finalized)
          (process_members spec hex_decode node epoch finalized validators duties).0
  unfolding process_members relevant_of
  members_IsOf hex_decode node [] = tt
  members_IsOf hex_decode node (d ∷ duties) =
      All->>= (IsOf spec epoch validators finalized) _ _ tt λ committee _.
        All->>= (IsOf spec epoch validators finalized) _ _ tt λ checked _.
          relevant_IsOf hex_decode node committee _ (All-filter_by (contains validators) _)

  sync_IsOf :
      (hex_decode : String → Option (List ℕ)) (node : BeaconNode)
      → All
          (IsOf spec epoch validators finalized)
          (process_epoch_sync spec hex_decode node epoch finalized validators).0
  unfolding process_epoch_sync
  sync_IsOf hex_decode node =
      All->>= (IsOf spec epoch validators finalized) _ _ tt
        λ duties _. members_IsOf hex_decode node duties

  attestations_IsOf :
      (hex_decode : String → Option (List ℕ)) (node : BeaconNode) (mode : EffectiveScanMode)
      → All
          (IsOf spec epoch validators finalized)
          (scan_attestations spec hex_decode node epoch validators finalized mode).0
  unfolding scan_attestations
  attestations_IsOf hex_decode node dense =
      dense_IsOf spec epoch validators finalized hex_decode node
  attestations_IsOf hex_decode node sparse =
      sparse_IsOf spec epoch validators finalized hex_decode node

  -- Whatever the node answers, and whether it succeeds or fails, a scan writes before its completion
  -- mark only rows of the tracked validators, of the epoch and its slots, with the scan's finality.
  pub scan_stages-IsOf :
      (hex_decode : String → Option (List ℕ)) (node : BeaconNode) (mode : EffectiveScanMode)
      → All
          (IsOf spec epoch validators finalized)
          (scan_stages spec hex_decode node epoch validators finalized mode).0
  unfolding scan_stages
  scan_stages-IsOf hex_decode node mode =
      All->>= (IsOf spec epoch validators finalized) _ _ (attestations_IsOf hex_decode node mode)
        λ _ _.
          All->>= (IsOf spec epoch validators finalized) _ _
            (proposals_IsOf spec epoch validators finalized node)
            λ _ _.
              All-if (IsOf spec epoch validators finalized) (leb spec.altair_fork_epoch epoch) _
                (λ _. sync_IsOf hex_decode node)
