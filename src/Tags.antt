-- ===== src/Tags.antt =====
-- src/tags.rs: validated tags, cache scopes, invalidation markers and their registry.
mod Tests
pub mod Tag
pub mod Marker
pub mod OrderedHex
pub mod Registry
pub mod Scope
pub mod Snapshot
