-- ===== src/Runner/Control.antt =====
-- The first and the last requests of a run: `bootstrap` and `fail_execution` of `ControlClient`
-- (apps/runner/kelpie_runner/main.py).
use dev_agent.Base.{
  ℕ, Key, Bool, true, false, Option, none, some, List, [], ◌∷◌, ◌&&◌, not, nat_beq, ltb,
  if◌then◌else◌, ◌-◌,
}
use dev_agent.Models.{
  WorkStatus, provisioning, analyzing, implementing, verifying, failed, status_beq,
}

-- `Assignment`: what the control of the run reads of it.
pub record Assignment : Type 0 where
  pub id : Key
  pub version : ℕ
  pub replan_limit : ℕ

-- The run's work as the control plane shows it.
pub record View : Type 0 where
  pub id : Key
  pub status : WorkStatus
  pub version : ℕ

-- An answer: a view; something else than a run's view; a conflict (409); any other failure.
pub data Reply : Type 0 where
  shown : View → Reply
  malformed conflict lost : Reply

-- What passes between the runner and the control plane.
pub data Step : Type 0 where
  saw : (status : WorkStatus) → (version : ℕ) → Step
  asked : (version : ℕ) → (target : WorkStatus) → Step
  answered : (version : ℕ) → Step

-- `transition`: none is an answer that raises. `k` goes on with the version in the answer.
abbrev pub ask : ℕ → WorkStatus → Option ℕ → List Step → (ℕ → List Step) → List Step
ask version target none failing k = asked version target ∷ failing
ask version target (some v) failing k = asked version target ∷ answered v ∷ k v

-- `work["status"] not in {...}` of `fail_execution`
abbrev pub is_executing : WorkStatus → Bool
is_executing provisioning = true
is_executing analyzing = true
is_executing implementing = true
is_executing verifying = true
is_executing _ = false

-- The answers to one round of `fail_execution`.
pub record Round : Type 0 where
  pub work : Reply
  pub failing : Reply

abbrev pub again : Reply → List Step → List Step
again conflict next = next
again _ next = []

abbrev pub fail_round : Key → Round → List Step → List Step
fail_round work_id r next = elim r.work [
  | shown work ↦
      if nat_beq work.id work_id && not (ltb work.version 1) && is_executing work.status
      then saw work.status work.version ∷ asked work.version failed ∷ again r.failing next
      else []
  | other ↦ []
]

-- `for attempt in range(2)`
unfoldable pub fail_execution : Key → (first second : Round) → List Step
fail_execution work_id first second = fail_round work_id first (fail_round work_id second [])

abbrev pub is_bootstrapped_work : Assignment → View → Bool
is_bootstrapped_work a w =
    nat_beq w.id a.id && status_beq w.status analyzing && nat_beq w.version a.version

abbrev pub is_provisioning_work : Assignment → View → Bool
is_provisioning_work a w =
    nat_beq w.id a.id && status_beq w.status provisioning && nat_beq w.version (a.version - 1)

-- The answers to `bootstrap`: the first read, the transition, and the read after a conflict.
pub record Booting : Type 0 where
  pub work : Reply
  pub transitioned : Reply
  pub reread : Reply

abbrev pub shown_work : View → List Step
shown_work w = saw w.status w.version ∷ []

-- `if self._is_bootstrapped_work(transitioned, assignment)`
abbrev pub settled_boot : Assignment → View → List Step → (ℕ → List Step) → List Step
settled_boot a w failing k =
    if is_bootstrapped_work a w then saw w.status w.version ∷ k w.version else failing

abbrev pub after_read : Assignment → Reply → List Step → (ℕ → List Step) → List Step
after_read a (shown w) failing k = settled_boot a w failing k
after_read a other failing k = failing

abbrev pub after_transition : Assignment → Booting → List Step → (ℕ → List Step) → List Step
after_transition a b failing k = elim b.transitioned [
  | shown w ↦ settled_boot a w failing k
  | conflict ↦ after_read a b.reread failing k
  | other ↦ failing
]

-- `bootstrap`: `k` goes on with the version of the analyzing work, `failing` is an exception.
unfoldable pub bootstrap : Assignment → Booting → List Step → (ℕ → List Step) → List Step
bootstrap a b failing k = if ltb a.version 2 then failing else (elim b.work [
  | shown w ↦
      if is_bootstrapped_work a w
      then saw w.status w.version ∷ k w.version
      else if is_provisioning_work a w
      then saw w.status w.version ∷ asked (a.version - 1) analyzing ∷ after_transition a b failing k
      else failing
  | other ↦ failing
])
