-- ===== src/Keystore.antt =====
-- The key store, crates/kms-keystore.
pub mod Cache
pub mod KexSession
pub mod RateLimiter
pub mod Software
mod Tests
