-- ===== src/Options.antt =====
-- src/options.rs: the options of one cache operation and their value types.
mod Tests
pub mod Values
pub mod Entry
pub mod Builders
pub mod Budgets
pub mod Resolved
