-- ===== src/Scanner/Epoch/Success.antt =====
-- What a scan has to have done to be recorded as complete (`scan_epoch` of src/scanner/mod.rs).
use dabeacon_indexer.Prelude.{
  ℕ, leb, if◌then◌else◌, Bool, true, false, ◌&&◌, ◌||◌, not, String, List, [], ◌∷◌, Option, ◌≡◌,
  refl, ap, ◌∙◌, subst, arith,
}
use dabeacon_indexer.Error.{ok, err, panic}
use dabeacon_indexer.Chain.{ChainSpec}
use dabeacon_indexer.Beacon.Node.{BeaconNode}
use dabeacon_indexer.Store.Tables.{Store}
use dabeacon_indexer.Store.Writes.{complete}
use dabeacon_indexer.Store.Completion.{is_scanned}
use dabeacon_indexer.Scanner.Scan.{Scan, done, write, after, ◌>>=◌, ◌>>◌}
use dabeacon_indexer.Scanner.Proposals.{process_epoch_proposals}
use dabeacon_indexer.Scanner.SyncCommittee.Epoch.{process_epoch_sync}
use dabeacon_indexer.Scanner.Epoch.{
  EffectiveScanMode, scan_attestations, scan_stages, scan_tracked, scan_epoch,
}
use dabeacon_indexer.Scanner.Epoch.Completion.{AreMarked, is_ok, scan_epoch-AreMarked}

-- Two steps succeed together where each does.
is_ok->> : (m k : Scan (Unit {0})) → is_ok (m >> k).1 ≡ (is_ok m.1 && is_ok k.1)
unfolding ◌>>=◌
is_ok->> (written, ok u) k = refl
is_ok->> (written, err e) k = refl
is_ok->> (written, panic) k = refl

is_ok-if : (b : Bool) (m : Scan (Unit {0})) → is_ok (if b then m else done).1 ≡ (not b || is_ok m.1)
is_ok-if true m = refl
is_ok-if false m = refl

module _ (spec : ChainSpec) (hex_decode : String → Option (List ℕ)) (node : BeaconNode) (epoch : ℕ)
    (finalized : Bool) (mode : EffectiveScanMode) where
  -- The attestations, the proposals and, from Altair on, the sync duties: each stage succeeds.
  abbrev pub stages_succeed : List ℕ → Bool
  stages_succeed validators =
      is_ok (scan_attestations spec hex_decode node epoch validators finalized mode).1
      && (is_ok (process_epoch_proposals node finalized spec epoch validators).1
          && (not (leb spec.altair_fork_epoch epoch)
              || is_ok (process_epoch_sync spec hex_decode node epoch finalized validators).1))

  is_ok-scan_stages :
      (validators : List ℕ)
      → is_ok (scan_stages spec hex_decode node epoch validators finalized mode).1
        ≡ stages_succeed validators
  unfolding scan_stages
  is_ok-scan_stages validators =
      let proposals = process_epoch_proposals node finalized spec epoch validators in
      let synced = process_epoch_sync spec hex_decode node epoch finalized validators in
      let later = if leb spec.altair_fork_epoch epoch then synced else done in
      let attested = scan_attestations spec hex_decode node epoch validators finalized mode in
      is_ok->> attested (proposals >> later)
      ∙ ap (λ (b : Bool). is_ok attested.1 && b)
          (is_ok->> proposals later
            ∙ ap (λ (b : Bool). is_ok proposals.1 && b)
                (is_ok-if (leb spec.altair_fork_epoch epoch) synced))

  is_ok-mark :
      (validators : List ℕ)
      → is_ok (if finalized then write (complete validators epoch) else done).1 ≡ true
  is_ok-mark validators = is_ok-mark_if finalized
    where
      is_ok-mark_if :
          (b : Bool) → is_ok (if b then write (complete validators epoch) else done).1 ≡ true
      is_ok-mark_if true = refl
      is_ok-mark_if false = refl

  covered_lem :
      (validators : List ℕ) (pair : ℕ × ℕ)
      → (is_ok (scan_epoch spec hex_decode node epoch validators finalized mode).1
          && (finalized && is_scanned validators epoch pair))
        ≡ (stages_succeed validators && (finalized && is_scanned validators epoch pair))
  unfolding scan_epoch scan_tracked
  covered_lem [] pair = nothing finalized (stages_succeed [])
    where
      nothing : (f s : Bool) → (true && (f && false)) ≡ (s && (f && false))
      nothing f s = ground arith
  covered_lem (v ∷ vs) pair =
      ap (λ (b : Bool). b && (finalized && is_scanned (v ∷ vs) epoch pair))
        (is_ok->> (scan_stages spec hex_decode node epoch (v ∷ vs) finalized mode)
            (if finalized then write (complete (v ∷ vs) epoch) else done)
          ∙ both _ _ _ (is_ok-scan_stages (v ∷ vs)) (is_ok-mark (v ∷ vs)))
    where
      both : (a b s : Bool) → a ≡ s → b ≡ true → (a && b) ≡ s
      both a b s h k = ground arith

  -- Behind a scan a pair of a validator and an epoch counts as completed exactly when it did before,
  -- or the scan is a finalized one that covers the pair, and the attestations, the proposals and, from
  -- Altair on, the sync duties have each succeeded; the gaps are those of before that such a scan
  -- does not cover. A scan with a failed stage records nothing as complete.
  pub scan_epoch_completes :
      (validators : List ℕ) (store : Store) (pair : ℕ × ℕ)
      → AreMarked
          (stages_succeed validators && (finalized && is_scanned validators epoch pair))
          pair
          store
          (after spec store (scan_epoch spec hex_decode node epoch validators finalized mode))
  scan_epoch_completes validators store pair =
      subst
        (λ b.
          AreMarked b pair store
            (after spec store (scan_epoch spec hex_decode node epoch validators finalized mode)))
        (covered_lem validators pair)
        (scan_epoch-AreMarked spec hex_decode node epoch finalized mode store pair validators)
