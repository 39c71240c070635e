-- ===== src/Api.antt =====
-- The service layer of crates/kms-api: quotas, the operations on keys and the automatic rotation, over
-- the software key store.
pub mod Errors
pub mod Quota
pub mod CryptoService
pub mod KeyService
pub mod Rotation
mod Tests
