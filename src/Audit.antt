-- ===== src/Audit.antt =====
-- The audit log, crates/kms-audit.
pub mod Types
pub mod Entry
pub mod Verifier
pub mod Worm
mod Tests
