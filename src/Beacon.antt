-- ===== src/Beacon.antt =====
-- src/beacon_client: what the beacon node answers.
pub mod Types
pub mod Node
