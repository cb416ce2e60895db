-- ===== src/Tests.antt =====
-- The theorems at concrete data, and runs of the definitions.
pub mod Data
pub mod Sync
pub mod Compare
pub mod Run
pub mod Table
pub mod Numbers
pub mod Session
pub mod Execute
pub mod Guarded
pub mod Reparse
pub mod Export
pub mod Snapshot
