-- ===== src/Services.antt =====
-- proofops/services: the parts that the API calls.
pub mod WalletAuth
