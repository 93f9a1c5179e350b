-- ===== src/Kernel.antt =====
-- The services of crates/kernel.
pub mod Host
pub mod Store
pub mod Exec
pub mod Audit
pub mod AuditReads
pub mod Rbac
pub mod Validate
pub mod Objects
pub mod Workflows
pub mod Records
pub mod Relations
pub mod Tasks
pub mod Approvals
pub mod Transitions
pub mod RateLimit
pub mod Allows
pub mod Writes
pub mod Calls
pub mod Histories
pub mod Audited
pub mod Access
pub mod Decisions
pub mod Reads
pub mod Gates
pub mod Accepted
pub mod Crypto
pub mod Edits
pub mod Principals
pub mod Auth
pub mod Identity
pub mod Tenants
pub mod Usage
pub mod Builder
pub mod Migration
