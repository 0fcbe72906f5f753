-- ===== src/Commit.antt =====
-- src/commit.rs: the reports and the generations of commits.
pub mod Generations
