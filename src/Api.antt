-- ===== src/Api.antt =====
-- pkg/api: what the HTTP handlers compute from the job store and the log of a migration.
pub mod Partitions
pub mod Jobs
pub mod Events
pub mod Broadcast
pub mod Chunks
pub mod Mask
pub mod Summary
