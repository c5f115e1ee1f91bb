-- ===== src/Store/Live/Examples.antt =====
-- The live worker's operations on a concrete store.
use dabeacon_indexer.Prelude.{
  ℕ, leb, true, false, not, ◌&&◌, ◌||◌, length, [], ◌∷◌, any, none, some, lookup, nat_key, pair_key,
  pair_same, pos, All, ◌≤◌, ◌<◌, ◌≡◌, refl, arith,
}
use dabeacon_indexer.Chain.{mainnet, epoch_start_slot, slot_to_epoch}
use dabeacon_indexer.Beacon.Types.{BlockRoot}
use dabeacon_indexer.Store.Tables.{AttestationDuty, is_completed}
use dabeacon_indexer.Store.Live.{attestation_rewards, pending, JobRow, LiveStore, invalidate_from}
use dabeacon_indexer.Store.Live.Jobs.{is_expired, expire_jobs, prune_completed_evidence}
use dabeacon_indexer.Store.Live.Expiry.{expires, expire_jobs-gaps}
use dabeacon_indexer.Store.Live.Anchor.{IsTip, prune_completed_evidence-IsTip}
use dabeacon_indexer.Store.Live.Reorg.{IsCut, invalidate_from-IsCut}
use dabeacon_indexer.Store.Live.Steps.{
  Reach, here, next, invalidated, expired, pruned, IsSettled, Reach-IsSettled,
}

abbrev final_duty : AttestationDuty
final_duty = record {
  columns = record {
    assigned_slot = 70;
    committee_index = 3;
    committee_position = 5;
    included = true;
    inclusion_slot = some 72;
    inclusion_delay = some (pos 2);
    effective_inclusion_delay = some 1;
    source_correct = some true;
    target_correct = some true;
    head_correct = some false;
    source_reward = some (pos 12);
    target_reward = none;
    head_reward = none;
    inactivity_penalty = none;
    finalized = true;
  };
  inclusion_known = true;
}

abbrev job : ℕ → JobRow
job epoch = record {
  validator = 7;
  epoch = epoch;
  slot = none;
  component = attestation_rewards;
  root = none;
  dependency = none;
  status = pending;
  attempts = 1;
  next_attempt = 24;
  payload = none;
}

-- The blocks of slots 62 and 65; the slots between are skipped.
abbrev stored : LiveStore
stored = record {
  tables = record {
    attestation_duties = ((7, 2), final_duty) ∷ [];
    block_proposals = [];
    sync_duties = [];
    completed_scans = (7, 2) ∷ [];
    live_gaps = (7, 1) ∷ [];
  };
  blocks = (60, ("r", "q")) ∷ (62, ("s", "r")) ∷ (65, ("t", "s")) ∷ [];
  coverage = (7, 62) ∷ (7, 70) ∷ [];
  tracking_start = (7, 1) ∷ [];
  jobs = job 2 ∷ job 3 ∷ [];
}

settled : IsSettled mainnet (7, 2) final_duty stored
unfolding is_completed lookup
settled = record { done = refl; kept = (final_duty, refl, (refl, refl)) }

-- A reorg, an expiry and a pruning.
abbrev history :
    Reach mainnet stored
      (prune_completed_evidence mainnet (expire_jobs (invalidate_from mainnet stored 64) 3) 3)
history = next (next (next here (invalidated 64)) (expired 3)) (pruned 3)

Reach-IsSettled_example :
    IsSettled mainnet
      (7, 2)
      final_duty
      (prune_completed_evidence mainnet (expire_jobs (invalidate_from mainnet stored 64) 3) 3)
Reach-IsSettled_example = Reach-IsSettled mainnet (7, 2) final_duty settled history

expire_jobs-gaps_example :
    All (λ row. is_expired 3 row ≡ false) (expire_jobs stored 3).jobs
    × (any (pair_same (7, 2)) (expire_jobs stored 3).tables.live_gaps
        ≡ (any (expires 3 (7, 2)) stored.jobs || any (pair_same (7, 2)) stored.tables.live_gaps))
    × (length (expire_jobs stored 3).jobs ≡ length stored.jobs)
expire_jobs-gaps_example = expire_jobs-gaps stored 3 (7, 2)

-- The tip at slot 64, behind the boundary of epoch 2, is the block of slot 62.
tip : IsTip stored.blocks 64 ("s", "r")
unfolding lookup
tip = (62, omega arith, refl, λ t a b. ground arith)

recent : epoch_start_slot mainnet 2 ≤ 65
unfolding epoch_start_slot
recent = omega arith

prune_completed_evidence-IsTip_example :
    IsTip (prune_completed_evidence mainnet stored 2).blocks 64 ("s", "r")
prune_completed_evidence-IsTip_example =
    prune_completed_evidence-IsTip mainnet stored 2 64 ("s", "r") recent tip

invalidate_from-IsCut_example :
    let t = invalidate_from mainnet stored 64 in
    IsCut
      (λ (k : ℕ × ℕ). k.1)
      (λ row. row.columns.finalized)
      (slot_to_epoch mainnet 64)
      stored.tables.attestation_duties
      t.tables.attestation_duties
    × IsCut
        (λ (k : ℕ). k)
        (λ row. row.finalized)
        64
        stored.tables.block_proposals
        t.tables.block_proposals
    × IsCut
        (λ (k : ℕ × ℕ). k.1)
        (λ row. row.finalized)
        64
        stored.tables.sync_duties
        t.tables.sync_duties
    × ((k : ℕ) (block : BlockRoot × BlockRoot)
        → (lookup k t.blocks ≡ some block → k < 64)
          × (k < 64 → lookup k stored.blocks ≡ some block → lookup k t.blocks ≡ some block))
    × (any (pair_same (7, 70)) t.coverage
        ≡ (any (pair_same (7, 70)) stored.coverage && not (leb 64 70)))
    × (t.tables.completed_scans ≡ stored.tables.completed_scans)
    × (t.tables.live_gaps ≡ stored.tables.live_gaps)
invalidate_from-IsCut_example = invalidate_from-IsCut mainnet stored 64 (7, 70)
