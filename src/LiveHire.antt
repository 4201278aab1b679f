-- ===== src/LiveHire.antt =====
-- proofops/services/live_erc8183.py: hiring an agent through an escrowed job on BSC.
pub mod Chain
pub mod Status
pub mod Plans
pub mod Logs
pub mod Delivery
pub mod Notify
