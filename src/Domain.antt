-- ===== src/Domain.antt =====
-- proofops/domain: the value types that the components share.
pub mod Models
pub mod Canonical
pub mod Agents
