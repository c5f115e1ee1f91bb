-- ===== src/Store.antt =====
-- src/db/scanner: the tables that the scanners write, and the writes.
pub mod Table
pub mod Tables
pub mod Duties
pub mod Completion
pub mod Production
pub mod Writes
pub mod Live
