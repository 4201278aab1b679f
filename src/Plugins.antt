-- ===== src/Plugins.antt =====
-- proofops/plugins: the plugins of the harness.
pub mod Evidence
pub mod AgentProof
pub mod AgentRegistry
