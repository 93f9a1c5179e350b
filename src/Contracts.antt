-- ===== src/Contracts.antt =====
-- The shared data of crates/contracts.
pub mod Json
pub mod Codes
pub mod Error
pub mod Auth
pub mod Permission
pub mod Field
pub mod Record
pub mod Workflow
pub mod Audit
pub mod Builder
pub mod Migration
