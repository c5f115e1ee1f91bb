-- ===== src/Backfill/Probe.antt =====
-- `probe_archival_capability` of src/backfill.rs: whether the node still has the state of an epoch.
use dabeacon_indexer.Prelude.{ℕ, max, ◌==◌, if◌then◌else◌, Bool, true, false, ◌≢◌, arith}
use dabeacon_indexer.Error.{
  Error, Result, ok, err, panic, beacon_api, http, json, database, migration, invalid_block_id,
  beacon_data_unavailable, backfill_epoch, inconsistent_beacon_data,
}
use dabeacon_indexer.Chain.{ChainSpec, epoch_start_slot}
use dabeacon_indexer.Beacon.Types.{Checkpoint}
use dabeacon_indexer.Beacon.Node.{BeaconNode}

-- `Err(Error::BeaconApi { status: 404, .. }) => Ok(false)`, and other errors as they are.
abbrev pub pruned_or : Error → Result Bool
pruned_or (beacon_api status) = if status == 404 then ok false else err (beacon_api status)
pruned_or e = err e

abbrev pub probed_state : Result Checkpoint → Result Bool
probed_state (ok checkpoint) = ok true
probed_state (err e) = pruned_or e
probed_state panic = panic

unfoldable pub probe_archival_capability : ChainSpec → BeaconNode → ℕ → Result Bool
probe_archival_capability spec node epoch =
    probed_state (node.get_current_justified (epoch_start_slot spec (max epoch 1)))

-- A state that is not there is an answer: the probe never fails with the status 404.
pruned_or-ne_404 : (e : Error) → pruned_or e ≢ err (beacon_api 404)
pruned_or-ne_404 (beacon_api status) h = ground (arith, h)
pruned_or-ne_404 (http decode) h = cc h
pruned_or-ne_404 json h = cc h
pruned_or-ne_404 database h = cc h
pruned_or-ne_404 migration h = cc h
pruned_or-ne_404 invalid_block_id h = cc h
pruned_or-ne_404 beacon_data_unavailable h = cc h
pruned_or-ne_404 (backfill_epoch epoch e) h = cc h
pruned_or-ne_404 inconsistent_beacon_data h = cc h

probe_archival_capability-ne_404 :
    (spec : ChainSpec) (node : BeaconNode) (epoch : ℕ)
    → probe_archival_capability spec node epoch ≢ err (beacon_api 404)
unfolding probe_archival_capability
probe_archival_capability-ne_404 spec node epoch =
    by_answer (node.get_current_justified (epoch_start_slot spec (max epoch 1)))
  where
    by_answer : (answer : Result Checkpoint) → probed_state answer ≢ err (beacon_api 404)
    by_answer (ok checkpoint) h = cc h
    by_answer (err e) h = pruned_or-ne_404 e h
    by_answer panic h = cc h
