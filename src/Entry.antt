-- ===== src/Entry.antt =====
-- src/entry.rs and src/entry/plain.rs: the cache entry envelope.
mod Tests
pub mod Envelope
pub mod Fresh
pub mod Plain
pub mod Reuse
