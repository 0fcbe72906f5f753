-- ===== src/Recovery.antt =====
-- src/recovery.rs and src/recovery/marker_snapshots.rs: the queue of failed mutations that are
-- replayed until they are applied, superseded or expired.
mod Tests
pub mod MarkerWork
pub mod Work
pub mod Service
