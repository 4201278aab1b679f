-- ===== src/Execution/StateMachine.antt =====
-- proofops/execution/state_machine.py: the table of task transitions.
use safehire_proofops_bnb.Prelude.{◌≡◌, Bool, true, false, List, [], ◌∷◌}
use safehire_proofops_bnb.Domain.Models.{
  TaskState, draft, simulated, approval_required, approved, executing, succeeded, failed, revoked,
}

abbrev pub state_eq : TaskState → TaskState → Bool
state_eq draft draft = true
state_eq simulated simulated = true
state_eq approval_required approval_required = true
state_eq approved approved = true
state_eq executing executing = true
state_eq succeeded succeeded = true
state_eq failed failed = true
state_eq revoked revoked = true
state_eq _ _ = false

abbrev contains : List TaskState → TaskState → Bool
contains [] t = false
contains (s ∷ ss) t = elim (state_eq s t) [ true ↦ true | false ↦ contains ss t ]

-- `ALLOWED_TRANSITIONS`
abbrev allowed_transitions : TaskState → List TaskState
allowed_transitions draft = simulated ∷ revoked ∷ []
allowed_transitions simulated = approval_required ∷ revoked ∷ []
allowed_transitions approval_required = approved ∷ revoked ∷ []
allowed_transitions approved = executing ∷ revoked ∷ []
allowed_transitions executing = succeeded ∷ failed ∷ []
allowed_transitions succeeded = revoked ∷ []
allowed_transitions failed = approved ∷ revoked ∷ []
allowed_transitions revoked = []

-- `require_transition` raises exactly where this is `false`.
unfoldable pub can_transition : TaskState → TaskState → Bool
can_transition current target = contains (allowed_transitions current) target

infix 40 ◌⟶*◌
-- Any number of permitted moves.
pub data ◌⟶*◌ : TaskState → TaskState → Type 0 where
  stay : {s : TaskState} → s ⟶* s
  move : {s t u : TaskState} → s ⟶* t → can_transition t u ≡ true → s ⟶* u
