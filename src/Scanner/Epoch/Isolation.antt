-- ===== src/Scanner/Epoch/Isolation.antt =====
-- A scan (`scan_epoch` of src/scanner/mod.rs) leaves the duties of other validators and epochs.
use dabeacon_indexer.Prelude.{
  ℕ, if◌then◌else◌, Bool, true, false, contains, String, List, [], ◌∷◌, Option, lookup, pair_key,
  pair_same, pair_same_iff, All, All-imp, ◌≡◌, refl, ◌∙◌, subst, Bool-cases, inl, inr, ==_refl,
}
use dabeacon_indexer.Chain.{ChainSpec}
use dabeacon_indexer.Beacon.Node.{BeaconNode}
use dabeacon_indexer.Store.Table.{lookup-upsert_ne, lookup-update_same}
use dabeacon_indexer.Store.Tables.{Store}
use dabeacon_indexer.Store.Duties.{upsert_attestation_duty}
use dabeacon_indexer.Store.Production.{upsert_block_proposal, upsert_sync_duty}
use dabeacon_indexer.Store.Completion.{is_scanned, mark_complete, duty_known}
use dabeacon_indexer.Store.Writes.{
  Write, duty, rewards, repair, complete, proposal, sync, apply, apply_all,
}
use dabeacon_indexer.Scanner.Scan.{done, write, after}
use dabeacon_indexer.Scanner.Scan.Laws.{All->>=}
use dabeacon_indexer.Scanner.Epoch.{EffectiveScanMode, scan_stages, scan_tracked, scan_epoch}
use dabeacon_indexer.Scanner.Epoch.Scope.{IsOf}
use dabeacon_indexer.Scanner.Epoch.SyncScope.{scan_stages-IsOf}

module _ (spec : ChainSpec) (epoch : ℕ) (validators : List ℕ) (pair : ℕ × ℕ)
    (outside : is_scanned validators epoch pair ≡ false) where
  -- The call leaves the pair's duty row.
  abbrev Leaves : Write → Type 0
  Leaves w =
      (store : Store)
      → lookup pair (apply spec store w).attestation_duties ≡ lookup pair store.attestation_duties

  other_key :
      (validator e : ℕ)
      → contains validators validator ≡ true
      → e ≡ epoch
      → pair_same (validator, e) pair ≡ false
  other_key validator e tracked same = elim (Bool-cases (pair_same (validator, e) pair)) [
    | inl h ↦
        let scanned =
          subst (λ p. is_scanned validators epoch p ≡ true)
            ((pair_same_iff (validator, e) pair).0 h) covered in
        cc
    | inr h ↦ h
  ]
    where
      covered : is_scanned validators epoch (validator, e) ≡ true
      covered = rw (tracked, same) (==_refl epoch)

  IsOf-Leaves : (finalized : Bool) (w : Write) → IsOf spec epoch validators finalized w → Leaves w
  unfolding apply upsert_attestation_duty upsert_block_proposal upsert_sync_duty
  IsOf-Leaves finalized (duty (validator, e) columns) h store =
      lookup-upsert_ne _ _ _ pair (validator, e) columns store.attestation_duties
        (other_key validator e h.0 h.1)
  IsOf-Leaves finalized (rewards batch) h store = elim h [ ]
  IsOf-Leaves finalized (repair key details) h store = elim h [ ]
  IsOf-Leaves finalized (complete tracked e) h store = elim h [ ]
  IsOf-Leaves finalized (proposal slot columns) h store = refl
  IsOf-Leaves finalized (sync key columns) h store = refl

  complete_Leaves : Leaves (complete validators epoch)
  unfolding apply mark_complete duty_known
  complete_Leaves store =
      lookup-update_same _ pair store.attestation_duties (λ v. rw (outside, duty_known) refl)

  All-Leaves :
      (ws : List Write) (store : Store)
      → All Leaves ws
      → lookup pair (apply_all spec store ws).attestation_duties
        ≡ lookup pair store.attestation_duties
  unfolding apply_all
  All-Leaves [] store h = refl
  All-Leaves (w ∷ ws) store h = All-Leaves ws (apply spec store w) h.1 ∙ h.0 store

  test_Leaves : (b : Bool) → All Leaves (if b then write (complete validators epoch) else done).0
  test_Leaves true = (complete_Leaves, tt)
  test_Leaves false = tt

-- A scan, whether it succeeds or fails, leaves the duty row of a validator that it does not track, or
-- of another epoch.
pub lookup-scan_epoch :
    (spec : ChainSpec) (hex_decode : String → Option (List ℕ)) (node : BeaconNode) (epoch : ℕ)
    (finalized : Bool) (mode : EffectiveScanMode) (store : Store) (pair : ℕ × ℕ)
    (validators : List ℕ)
    → is_scanned validators epoch pair ≡ false
    → let m = scan_epoch spec hex_decode node epoch validators finalized mode in
      lookup pair (after spec store m).attestation_duties ≡ lookup pair store.attestation_duties
unfolding scan_epoch scan_tracked after apply_all
lookup-scan_epoch spec hex_decode node epoch finalized mode store pair [] outside = refl
lookup-scan_epoch spec hex_decode node epoch finalized mode store pair (v ∷ vs) outside =
    All-Leaves spec epoch (v ∷ vs) pair outside
      (scan_tracked spec hex_decode node epoch (v ∷ vs) finalized mode).0 store
      (All->>= (Leaves spec epoch (v ∷ vs) pair outside) _ _
        (All-imp (scan_stages spec hex_decode node epoch (v ∷ vs) finalized mode).0
          (IsOf-Leaves spec epoch (v ∷ vs) pair outside finalized)
          (scan_stages-IsOf spec epoch (v ∷ vs) finalized hex_decode node mode))
        (λ _ _. test_Leaves spec epoch (v ∷ vs) pair outside finalized))
