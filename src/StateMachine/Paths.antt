-- ===== src/StateMachine/Paths.antt =====
-- The paths of the transition graph (apps/api/app/state_machine.py).
use dev_agent.Base.{Bool, true, false, ◌≡◌, refl, ◌⊎◌, inl, inr, ◌&&◌, ◌||◌, arith}
use dev_agent.Models.{
  WorkStatus, queued, provisioning, analyzing, implementing, verifying, awaiting_feedback,
  awaiting_approval, awaiting_input, budget_exhausted, committing, pr_created, completed, failed,
  cancelled, status_beq,
}
use dev_agent.StateMachine.{ensure_transition}

-- The steps of the graph, the last one outermost.
pub data Walk (s : WorkStatus) : WorkStatus → Type 0 where
  here : Walk s s
  step : (t : WorkStatus) {u : WorkStatus} → Walk s t → ensure_transition t u ≡ true → Walk s u

-- The work is on its way out: it is committed, published or completed.
abbrev pub is_delivered : WorkStatus → Bool
is_delivered committing = true
is_delivered pr_created = true
is_delivered completed = true
is_delivered _ = false

-- The walk takes the step from waiting for approval to committing.
pub crosses_approval : {s u : WorkStatus} → Walk s u → Bool
crosses_approval here = false
crosses_approval (step t {u = u} w h) =
    (status_beq t awaiting_approval && status_beq u committing) || crosses_approval w

delivered_before :
    (t u : WorkStatus)
    → ensure_transition t u ≡ true
    → is_delivered u ≡ true
    → (is_delivered t ≡ true) ⊎ ((t ≡ awaiting_approval) × (u ≡ committing))
unfolding ensure_transition
delivered_before queued u h d = ground arith
delivered_before _ u h d = ground arith

-- Every walk from a status that is not yet delivered to a delivered one crosses the approval.
pub delivery_needs_approval :
    {s u : WorkStatus} (w : Walk s u)
    → is_delivered s ≡ false
    → is_delivered u ≡ true
    → crosses_approval w ≡ true
unfolding crosses_approval
delivery_needs_approval here n d = cc
delivery_needs_approval (step t {u = u} w h) n d = elim (delivered_before t u h d) [
  | inl before ↦ ground (arith, delivery_needs_approval w n before)
  | inr (e, f) ↦ ground arith
]

-- The two statuses that nothing follows.
abbrev pub is_final : WorkStatus → Bool
is_final completed = true
is_final cancelled = true
is_final _ = false

-- The one or two steps that stop a work item, from each status that has a way on.
to_cancelled : (s : WorkStatus) → is_final s ≡ false → Walk s cancelled
unfolding ensure_transition
to_cancelled committing h = step failed (step committing here refl) refl
to_cancelled pr_created h = step failed (step pr_created here refl) refl
to_cancelled completed h = absurd (cc)
to_cancelled cancelled h = here
to_cancelled s h = step s here refl

-- A work item can be stopped from every status but the final ones, and nothing follows those.
pub stop_or_final :
    (s : WorkStatus)
    → ((is_final s ≡ false) × Walk s cancelled)
      ⊎ ((is_final s ≡ true) × ((t : WorkStatus) → ensure_transition s t ≡ false))
unfolding ensure_transition
stop_or_final completed = inr (refl, λ t. refl)
stop_or_final cancelled = inr (refl, λ t. refl)
stop_or_final s = inl (refl, to_cancelled s refl)

to_implementing : Walk queued implementing
unfolding ensure_transition
to_implementing = step analyzing (step provisioning (step queued here refl) refl) refl

to_verifying : Walk queued verifying
unfolding ensure_transition
to_verifying = step implementing to_implementing refl

to_approval : Walk queued awaiting_approval
unfolding ensure_transition
to_approval = step verifying to_verifying refl

to_committing : Walk queued committing
unfolding ensure_transition
to_committing = step awaiting_approval to_approval refl

-- Every status is reached from `queued`, where each work item begins.
pub reached_from_queued : (s : WorkStatus) → Walk queued s
unfolding ensure_transition
reached_from_queued queued = here
reached_from_queued provisioning = step queued here refl
reached_from_queued analyzing = step provisioning (step queued here refl) refl
reached_from_queued implementing = to_implementing
reached_from_queued verifying = to_verifying
reached_from_queued awaiting_feedback = step verifying to_verifying refl
reached_from_queued awaiting_approval = to_approval
reached_from_queued awaiting_input = step implementing to_implementing refl
reached_from_queued budget_exhausted = step implementing to_implementing refl
reached_from_queued committing = to_committing
reached_from_queued pr_created = step committing to_committing refl
reached_from_queued completed = step pr_created (step committing to_committing refl) refl
reached_from_queued failed = step provisioning (step queued here refl) refl
reached_from_queued cancelled = step queued here refl
