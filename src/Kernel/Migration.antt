-- ===== src/Kernel/Migration.antt =====
-- crates/kernel/src/migration.rs: the first-run migration
pub mod Planner
pub mod Plans
pub mod Reports
pub mod Sessions
pub mod Services
pub mod Sums
pub mod Totals
pub mod Counts
pub mod Fields
pub mod Safety
pub mod Stored
pub mod Activation
