-- ===== src/Kernel/AuditReads/Found.antt =====
-- crates/kernel/src/audit.rs: what a reading of the audit log finds
use latent_db.Kernel.Host.{Kernel}
