-- ===== src/Models/Status.antt =====
-- The enumerations of apps/api/app/models.py, and the texts of its columns that only take a few
-- values: the state of a lease and of a delivery job, the transport of an audit record.
use dev_agent.Base.{ℕ, Bool, true, false, ◌≡◌, ◌↔◌, Eq, arith, String, nat_beq}

pub data WorkStatus : Type 0 where
  queued provisioning analyzing implementing verifying : WorkStatus
  awaiting_feedback awaiting_approval awaiting_input budget_exhausted : WorkStatus
  committing pr_created completed failed cancelled : WorkStatus

-- The place in the declaration; two members are equal if theirs are.
abbrev pub place : WorkStatus → ℕ
place queued = 0
place provisioning = 1
place analyzing = 2
place implementing = 3
place verifying = 4
place awaiting_feedback = 5
place awaiting_approval = 6
place awaiting_input = 7
place budget_exhausted = 8
place committing = 9
place pr_created = 10
place completed = 11
place failed = 12
place cancelled = 13

abbrev pub value : WorkStatus → String
value queued = "queued"
value provisioning = "provisioning"
value analyzing = "analyzing"
value implementing = "implementing"
value verifying = "verifying"
value awaiting_feedback = "awaiting_feedback"
value awaiting_approval = "awaiting_approval"
value awaiting_input = "awaiting_input"
value budget_exhausted = "budget_exhausted"
value committing = "committing"
value pr_created = "pr_created"
value completed = "completed"
value failed = "failed"
value cancelled = "cancelled"

abbrev pub status_beq : WorkStatus → WorkStatus → Bool
status_beq s t = nat_beq (place s) (place t)

place_injective : (s t : WorkStatus) → place s ≡ place t → s ≡ t
place_injective s t h = ground arith

pub status_decides : (s t : WorkStatus) → (s ≡ t) ↔ (status_beq s t ≡ true)
status_decides s t = ground (arith, place_injective s t)

instance abbrev pub status_eq : Eq WorkStatus
status_eq = record { same = status_beq; decides = status_decides }

pub data WorkSource : Type 0 where
  web_source github_source autonomous_source : WorkSource

pub data WorkerState : Type 0 where
  online draining offline : WorkerState

abbrev pub is_online : WorkerState → Bool
is_online online = true
is_online _ = false

abbrev pub is_offline : WorkerState → Bool
is_offline offline = true
is_offline _ = false

pub data Role : Type 0 where
  viewer operator approver administrator : Role

-- `ResourceLease.state`
pub data LeaseState : Type 0 where
  active released quarantined : LeaseState

abbrev pub is_active : LeaseState → Bool
is_active active = true
is_active _ = false

abbrev pub is_released : LeaseState → Bool
is_released released = true
is_released _ = false

-- `DeliveryJob.state`
pub data JobState : Type 0 where
  pending retry running done broken fenced : JobState

-- `AuditRecord.transport`
pub data Transport : Type 0 where
  web slack background : Transport

-- `state in {"completed", "failed"}`
abbrev pub is_finished : JobState → Bool
is_finished done = true
is_finished broken = true
is_finished _ = false

-- `state in {"pending", "retry", "running"}`
abbrev pub is_runnable : JobState → Bool
is_runnable pending = true
is_runnable retry = true
is_runnable running = true
is_runnable _ = false
