-- ===== src/Time.antt =====
-- src/time.rs: durations, timestamps, timeouts and the manually driven clock.
mod Tests
pub mod Duration
pub mod Timestamp
pub mod Timeout
pub mod Clock
