-- ===== src/Execution.antt =====
-- proofops/execution: the bounded-authority core.
pub mod StateMachine
pub mod RiskGate
pub mod Errors
pub mod Store
pub mod Exec
pub mod Service
