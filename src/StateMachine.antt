-- ===== src/StateMachine.antt =====
-- apps/api/app/state_machine.py: which status may follow which.
pub mod Paths
use dev_agent.Base.{Bool, List, [], ◌∷◌, contains}
use dev_agent.Models.{
  WorkStatus, queued, provisioning, analyzing, implementing, verifying, awaiting_feedback,
  awaiting_approval, awaiting_input, budget_exhausted, committing, pr_created, completed, failed,
  cancelled, status_eq,
}

-- `ALLOWED_TRANSITIONS`
unfoldable pub allowed_transitions : WorkStatus → List WorkStatus
allowed_transitions queued = provisioning ∷ cancelled ∷ []
allowed_transitions provisioning = analyzing ∷ failed ∷ cancelled ∷ []
allowed_transitions analyzing =
    implementing ∷ awaiting_input ∷ budget_exhausted ∷ failed ∷ cancelled ∷ []
allowed_transitions implementing =
    verifying ∷ awaiting_input ∷ budget_exhausted ∷ failed ∷ cancelled ∷ []
allowed_transitions verifying =
    implementing ∷ awaiting_feedback ∷ awaiting_approval ∷ budget_exhausted ∷ failed ∷ cancelled
    ∷ []
allowed_transitions awaiting_feedback = implementing ∷ awaiting_approval ∷ cancelled ∷ []
allowed_transitions awaiting_approval = implementing ∷ committing ∷ cancelled ∷ []
allowed_transitions awaiting_input = implementing ∷ cancelled ∷ []
allowed_transitions budget_exhausted = implementing ∷ cancelled ∷ []
allowed_transitions committing = pr_created ∷ failed ∷ []
allowed_transitions pr_created = completed ∷ failed ∷ []
allowed_transitions completed = []
allowed_transitions failed = queued ∷ cancelled ∷ []
allowed_transitions cancelled = []

-- `ensure_transition` returns, and does not raise `InvalidTransition`.
unfoldable pub ensure_transition : WorkStatus → WorkStatus → Bool
unfolding allowed_transitions
ensure_transition current target = contains target (allowed_transitions current)
