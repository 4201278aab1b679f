-- ===== src/Execution/Service/Interleaving/Policies.antt =====
-- The policies of a reachable state: each stands under its own id, so that the id a task names is
-- the id whose spending the gate reads (proofops/execution/service.py).
