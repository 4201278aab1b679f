-- ===== src/Decision.antt =====
-- proofops/decision: what a past hire is worth as evidence.
pub mod Market
pub mod Paid
