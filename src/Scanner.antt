-- ===== src/Scanner.antt =====
-- src/scanner: the per-epoch scan pipeline.
pub mod Bits
pub mod Attestations
pub mod Rewards
pub mod Scan
pub mod SyncCommittee
pub mod Proposals
pub mod Epoch
pub mod LiveRewards
