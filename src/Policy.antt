-- ===== src/Policy.antt =====
-- The access policy engine, crates/kms-policy.
pub mod Glob
pub mod Json
pub mod Context
pub mod Time
pub mod Condition
pub mod Engine
pub mod Typed
mod Tests
