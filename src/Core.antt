-- ===== src/Core.antt =====
-- The core library, crates/kms-core.
pub mod Rotation
pub mod Key
pub mod Aad
pub mod Shamir
mod Tests
