-- ===== src/Sync.antt =====
-- src/Sync: from comparison rows to a plan of filesystem steps, and its execution.
pub mod Path
pub mod Plan
pub mod Fs
pub mod Execute
pub mod Guarded
pub mod Disk
pub mod Build
