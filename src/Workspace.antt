-- ===== src/Workspace.antt =====
-- proofops/workspace: a visitor's private watches.
pub mod Store
pub mod FollowUp
pub mod Quotas
pub mod Worker
