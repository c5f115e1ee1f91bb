-- ===== src/Backfill.antt =====
-- src/backfill.rs and src/backfill/retry.rs: the historical catch-up.
pub mod Retry
pub mod Pass
pub mod Run
pub mod Repair
pub mod Probe
