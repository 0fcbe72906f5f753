-- ===== src/Distributed.antt =====
-- src/distributed.rs: the distributed cache: its wire envelope, the frame around it, and the
-- in-memory backend.
pub mod Digits
mod Tests
pub mod Invalidation
pub mod Memory
pub mod Codec
pub mod Frame
pub mod Envelope
pub mod Canonical
