-- ===== src/Lib.antt =====
-- dabeacon-indexer: the duties of Ethereum validators, read from a beacon node and written to a
-- database.
--
-- The program has two writers. The backfill (src/backfill.rs) scans finalized epochs, densely where
-- the blocks of the epoch are there and sparsely where they are not (src/scanner). The live worker
-- (src/live) follows the chain's head, collects blocks and inclusions, rolls back what a reorg
-- orphans, and promotes collected rows once a finalized checkpoint confirms their ancestry. Both
-- decode blocks with src/scanner/attestations/decode.rs and store rows through src/db/scanner.
--
-- Which file models which part:
--   Error                            src/error.rs, and results with a Rust panic as a third case
--   Chain                            src/chain.rs
--   Beacon/Types                     src/beacon_client/types.rs
--   Beacon/Node                      what the beacon node answers to a scan's requests
--   Scanner/Bits                     src/scanner/bits.rs: decode_bitlist, decode_bitvector
--   Scanner/Attestations             src/scanner/attestations/mod.rs: the shared types, the delays
--   Scanner/Attestations/Committees  src/scanner/attestations/decode.rs: resolve_*_committees
--   Scanner/Attestations/Decode      src/scanner/attestations/decode.rs: from extraction to the scan
--   Scanner/Attestations/Delay       the delay that scan_live_attestation_epoch stores
--   Scanner/Attestations/Ancestry    src/scanner/attestations/mod.rs: live_vote_context
--   Scanner/Attestations/LiveSlot    src/scanner/attestations/mod.rs: scan_live_attestations_in_slot
--   Scanner/Attestations/Roots       the search for the block before a skipped slot
--   Scanner/Attestations/RootMap     src/scanner/attestations/dense.rs: the blocks and their roots
--   Scanner/Attestations/Dense       src/scanner/attestations/dense.rs: the dense pass
--   Scanner/Attestations/Sparse      src/scanner/attestations/sparse.rs
--   Scanner/SyncCommittee            src/scanner/sync_committee.rs: outcomes, rewards, live scan
--   Scanner/SyncCommittee/Epoch      src/scanner/sync_committee.rs: process_epoch_sync, the probe
--   Scanner/Proposals                src/scanner/proposals.rs
--   Scanner/Epoch                    src/scanner/mod.rs: scan_epoch, the live worker's writes
--   Scanner/LiveRewards              the rewards that the live worker fetches and stores
--   Scanner/Scan                     a scan as its writes in order and its result
--   Scanner/Rewards                  validate_reward_indices, validate_epoch_response
--   Live, Live/Finalization          src/live/mod.rs, src/live/reorg.rs, src/live/finalization.rs
--   Backfill/Pass, Backfill/Run      src/backfill.rs: one pass; run_backfill
--   Backfill/Repair, Backfill/Probe  src/backfill.rs: repair_live_gaps, probe_archival_capability
--   Backfill/Retry                   src/backfill/retry.rs
--   Store/Tables                     the tables of migrations/ that the scanners write
--   Store/Duties                     src/db/scanner/attestations.rs: the three writes of duties
--   Store/Completion                 src/db/scanner/completion.rs
--   Store/Production                 src/db/scanner/proposals.rs, src/db/scanner/sync.rs
--   Store/Writes                     calls of these writers, one after the other
--   Store/Live                       src/db/scanner/live.rs: coverage, blocks, reorgs, jobs
--   Store/Live/Steps                 scans and the live worker's operations, in any order
-- A function keeps its name. A parameter that is `&mut` in the source is an argument and a result.
-- The child modules of a part hold its proofs, those called Examples the concrete runs.
--
-- Conventions. Numbers are natural numbers; where the source multiplies slots and epochs the product
-- wraps at 2 ^ 64 (`wrap64`), `saturating_sub` is the subtraction that stops at 0, and `checked_sub`
-- returns an option. A `HashMap` is an association list with unique insertion, a `HashSet` the list
-- of its elements, a `Root` its normalised string. An index out of bounds is the result `panic`.
-- Loops over a sequence are recursion on the list. The walk over parents (`walk`) runs on fuel: the
-- slots of a parent chain fall, so the highest stored slot and two more rounds are enough, which
-- the theorem on `confirmed_ancestry` includes. `run_backfill` runs on fuel too: each round behind a
-- pass that is not the sweep raises the target, so the distance to the last finalized epoch and two
-- more are enough. The chain specification, a process-wide constant in the source, is an argument;
-- results on windows of epochs assume that an epoch has a slot (with none, `slot_to_epoch` divides by
-- zero, and the source panics). Rewards are integers: a cast of one to a smaller type and the product
-- with the net positions wrap. Slots and delays that a scan finds stand as natural numbers in the
-- tables, for slots below 2 ^ 63 and delays and committee indices below 2 ^ 31, where the casts to
-- the columns' types change nothing.
-- `hex::decode`, of a crate, is a parameter of the decoders; the committees and duties that the
-- beacon node answers with are parameters of the live scan.
--
-- A table is a map from its primary key. The SQL of a write is written out: an upsert inserts, or
-- merges where its WHERE holds, a comparison with NULL does not hold, and COALESCE is `or_else`.
-- Each statement, or transaction, is one step. Foreign keys and failing statements are left out. A
-- scan never reads what it wrote, so it is the list of its writes and its result; the writes of a
-- scan that fails stay. The answers of the beacon node, errors included, are one record (`BeaconNode`)
-- that the scans take as a parameter; requests made side by side stand in the order in which their
-- results are awaited.
--
-- Not modelled: HTTP and the decoding of JSON (src/beacon_client), the SQL of the web pages
-- (src/db/api) and their handlers (src/web), configuration, metrics, tracing and start-up; of the
-- live worker the asynchronous drivers around the parts above, and the queries of
-- src/db/scanner/live.rs. Heartbeats and reports on the progress of a backfill change no duty.
mod Prelude
pub mod Error
pub mod Chain
pub mod Beacon
pub mod Scanner
pub mod Live
pub mod Backfill
pub mod Store
