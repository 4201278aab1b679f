-- ===== src/Harness.antt =====
-- proofops/harness: the plugins of the application, their order and their lifecycle.
pub mod Registry
pub mod Lifecycle
