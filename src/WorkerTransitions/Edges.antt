-- ===== src/WorkerTransitions/Edges.antt =====
-- The edges of the graph that are open to a worker (apps/api/app/worker_transitions.py), beside those
-- of apps/api/app/state_machine.py.
use dev_agent.Base.{Bool, true, false, ◌≡◌, ◌≢◌, List, [], ◌∷◌, contains, arith}
use dev_agent.Models.{
  WorkStatus, queued, provisioning, analyzing, implementing, verifying, awaiting_feedback,
  awaiting_approval, awaiting_input, budget_exhausted, committing, pr_created, completed, failed,
  cancelled, status_eq,
}
use dev_agent.StateMachine.{ensure_transition}
use dev_agent.StateMachine.Paths.{is_delivered}

-- `WORKER_TRANSITIONS.get(status, set())`
unfoldable pub worker_transitions : WorkStatus → List WorkStatus
worker_transitions provisioning = analyzing ∷ failed ∷ cancelled ∷ []
worker_transitions analyzing =
    implementing ∷ awaiting_input ∷ budget_exhausted ∷ failed ∷ cancelled ∷ []
worker_transitions implementing =
    verifying ∷ awaiting_input ∷ budget_exhausted ∷ failed ∷ cancelled ∷ []
worker_transitions verifying =
    implementing ∷ awaiting_feedback ∷ awaiting_approval ∷ budget_exhausted ∷ failed ∷ cancelled
    ∷ []
worker_transitions awaiting_feedback = awaiting_approval ∷ cancelled ∷ []
worker_transitions awaiting_approval = cancelled ∷ []
worker_transitions awaiting_input = cancelled ∷ []
worker_transitions budget_exhausted = cancelled ∷ []
worker_transitions committing = pr_created ∷ failed ∷ []
worker_transitions pr_created = completed ∷ failed ∷ []
worker_transitions _ = []

-- `target in WORKER_TRANSITIONS.get(item.status, set())`
unfoldable pub worker_edge : WorkStatus → WorkStatus → Bool
unfolding worker_transitions
worker_edge current target = contains target (worker_transitions current)

-- The statuses that wait for a person.
abbrev pub awaits_person : WorkStatus → Bool
awaits_person awaiting_approval = true
awaits_person awaiting_input = true
awaits_person budget_exhausted = true
awaits_person _ = false

-- Every worker edge is an edge of the control plane's graph.
pub worker_edge-ensure_transition :
    (s t : WorkStatus) → worker_edge s t ≡ true → ensure_transition s t ≡ true
unfolding worker_edge ensure_transition
worker_edge-ensure_transition queued t h = ground arith
worker_edge-ensure_transition _ t h = ground arith

-- A worker can only cancel what waits for a person, and brings no work into delivery.
pub worker_edge_limits :
    (s t : WorkStatus)
    → worker_edge s t ≡ true
    → (t ≢ queued)
      × (t ≢ committing)
      × (awaits_person s ≡ true → t ≡ cancelled)
      × (is_delivered t ≡ true → is_delivered s ≡ true)
unfolding worker_edge
worker_edge_limits queued t h = ground arith
worker_edge_limits _ t h = ground arith
