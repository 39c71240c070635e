-- ===== src/Approval.antt =====
-- The approval workflow, crates/kms-approval.
pub mod Types
pub mod Request
pub mod BreakGlass
pub mod Engine
pub mod Approvers
mod Tests
