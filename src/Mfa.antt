-- ===== src/Mfa.antt =====
-- Multi-factor authentication, crates/kms-mfa.
pub mod BackupCodes
pub mod Totp
mod Tests
