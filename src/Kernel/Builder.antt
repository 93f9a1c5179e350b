-- ===== src/Kernel/Builder.antt =====
-- crates/kernel/src/builder.rs: the object builder
pub mod Catalog
pub mod Templates
pub mod Validation
pub mod Drafts
pub mod Publishable
pub mod Published
