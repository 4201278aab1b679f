-- ===== src/Arena.antt =====
-- proofops/arena: tasks that agents' proposals are checked against.
pub mod Store
