-- ===== src/Delivery.antt =====
-- apps/api/app/delivery.py: the transactions of a delivery. The publication between them is in
-- Delivery.Publish.
pub mod Stages
pub mod Recovery
pub mod Run
pub mod Publish
pub mod Lock
pub mod Guard
pub mod Triple
pub mod Writes
pub mod Outcome
pub mod Finalize
pub mod Endings
pub mod Refusals
pub mod Closing
use Prim.Native.String.{◌++◌}
use dev_agent.Base.{
  ℕ, ◌+◌, Key, Bool, true, false, Option, none, some, ◌&&◌, not, String, nat_beq, holds, is_some,
}
use dev_agent.Base.Table.{find, save}
use dev_agent.Models.{
  Db, WorkItem, DeliveryJob, JobState, WorkStatus, Action, committing, failed, pr_created,
  completed, pending, retry, running, done, broken, delivery_started, delivery_completed,
  delivery_failed, delivery_stopped, end, field, str, text, status_beq, work_keyed, worker_keyed,
  job_keyed, bundle_keyed,
}
use dev_agent.DeliveryAudit.{DeliveryAuthority, delivery_authority, Attempt, record_delivery_audit}
use dev_agent.Service.{Change, emit_event, transition_work_item}
use dev_agent.Tx.{
  lift, Tx, Result, ok, err, Error, delivery_error, pure, raise, require, or_raise, reads, asks,
  modify, ◌>>=◌, ◌>>◌,
}
use Stages.{Stage, stage_text, authorization}

-- `DeliveryStopped`
abbrev pub fenced_off : Error
fenced_off = Error.delivery_stopped

abbrev owner_of : Option WorkItem → Option Key
owner_of none = none
owner_of (some w) = w.assigned_worker_id

-- `seen` is the database when the worker's id was read, before its lock was granted.
unfoldable pub lock_delivery : Db → Key → (states : JobState → Bool) → Tx (WorkItem × DeliveryJob)
lock_delivery seen i states = do
  worker_id ← or_raise (owner_of (find i seen.works)) fenced_off
  worker ← or_raise (← reads (λ db. find worker_id db.workers)) fenced_off
  require (not (is_some worker.quarantined_at)) fenced_off
  work ← or_raise (← reads (λ db. find i db.works)) fenced_off
  job ← or_raise (← reads (λ db. find i db.jobs)) fenced_off
  require
      (holds worker_id work.assigned_worker_id
        && status_beq work.status committing
        && states job.state)
      fenced_off
  pure (work, job)

abbrev pub is_running : JobState → Bool
is_running running = true
is_running _ = false

-- `("pending", "retry")`
abbrev pub is_queued_job : JobState → Bool
is_queued_job pending = true
is_queued_job retry = true
is_queued_job _ = false

abbrev pub save_running : DeliveryJob → Tx (Unit {0})
save_running job e db = ok (tt, record db { jobs = save job db.jobs })

abbrev pub failure_text : Stage → String → String
failure_text stage code = "GitHub delivery failed at " ++ stage_text stage ++ " (" ++ code ++ ")"

-- What `fail_delivery` and the other records are told of the attempt.
pub record Report : Type 0 where
  pub request_id : Key
  pub attempt : ℕ
  pub authority : Option DeliveryAuthority
  pub stage : Stage
  pub publication : String
  pub pull_request_number : Option ℕ

abbrev pub attempt_of : Action → Report → Option String → Attempt
attempt_of action r code = record {
  action = action;
  request_id = r.request_id;
  attempt = r.attempt;
  authority = r.authority;
  stage = stage_text r.stage;
  publication = r.publication;
  error_code = code;
  pull_request_number = r.pull_request_number;
}

abbrev pub by_delivery : WorkItem → WorkStatus → String → Change
by_delivery work target message = record {
  target = target;
  expected_version = work.version;
  actor = text "delivery:github";
  worker_id = none;
  message = message;
  payload = end;
}

-- Its event is made of short texts: the codes are names of errors, so EventCreate takes it.
unfoldable pub fail_delivery : WorkItem → DeliveryJob → Report → (code : String) → Tx (Unit {0})
fail_delivery work job r code = do
  now ← asks (λ e. e.now)
  let message = failure_text r.stage code
  let job' = record job { state = broken; error = some message; updated_at = now }
  save_running job'
  emit_event work.id (record {
    event_type = "delivery.failed";
    source = text "delivery:github";
    level = "error";
    message = message;
    payload = field "stage" (str (stage_text r.stage)) (field "error_code" (str code) end);
  })
  work' ← transition_work_item work (by_delivery work failed "GitHub delivery failed")
  record_delivery_audit work' job' (attempt_of delivery_failed r (some code))
  pure tt

-- The work as it is published, and what its publication was authorized by.
pub record Started : Type 0 where
  pub work : WorkItem
  pub attempt : ℕ
  pub authority : DeliveryAuthority

abbrev first_report : Key → ℕ → Option DeliveryAuthority → Report
first_report request_id attempt authority = record {
  request_id = request_id;
  attempt = attempt;
  authority = authority;
  stage = authorization;
  publication = "not_started";
  pull_request_number = none;
}

-- What follows the checks of the last transaction; `spell` gives the text of a URL.
unfoldable pub complete_delivery :
    (spell : Key → String) → WorkItem → DeliveryJob → (url : Key) → Report → Tx (Unit {0})
complete_delivery spell current job url r = do
  let published = record current { pull_request_url = some url }
  modify (λ db. record db { works = save published db.works })
  created ←
      transition_work_item published
        (by_delivery published pr_created ("Pull request created: " ++ spell url))
  ended ← transition_work_item created (by_delivery created completed "Delivery completed")
  let job' = record job { state = done; error = none }
  save_running job'
  record_delivery_audit ended job' (attempt_of delivery_completed r none)
  pure tt

module _ (is_digest : Key → Bool) where
  abbrev pub authority_now : Key → WorkItem → DeliveryJob → Tx (Result DeliveryAuthority)
  authority_now i work job e db =
      ok (delivery_authority is_digest work job (find i db.bundles) db, db)

  -- `guard_delivery_write` up to the write; the session is left uncommitted.
  unfoldable pub guard_delivery_write : Db → Key → (approval_audit_id : ℕ) → Tx (Unit {0})
  unfolding lock_delivery
  guard_delivery_write seen i approval_audit_id = do
    (work, job) ← lock_delivery seen i is_running
    authority ← lift (← authority_now i work job)
    require (nat_beq authority.audit_id approval_audit_id) (delivery_error "approval_mismatch")

  -- What follows the marking of the job as running.
  unfoldable pub authorize_start :
      WorkItem → DeliveryJob → Key → Result DeliveryAuthority → Tx (Option Started)
  unfolding fail_delivery
  authorize_start work job request_id (ok a) = do
    record_delivery_audit work job
        (attempt_of delivery_started (first_report request_id job.attempts (some a)) none)
    pure (some (record { work = work; attempt = job.attempts; authority = a }))
  authorize_start work job request_id (err x) = elim x [
    | delivery_error code ↦ (do
      fail_delivery work job (first_report request_id job.attempts none) code
      pure none)
    | other ↦ raise other
  ]

  -- The first transaction of `_deliver_work`; none is an attempt that failed at once.
  unfoldable pub start_delivery : Db → Key → (request_id : Key) → Tx (Option Started)
  unfolding lock_delivery authorize_start
  start_delivery seen i request_id = do
    (work, job) ← lock_delivery seen i is_queued_job
    now ← asks (λ e. e.now)
    let job' = record job { state = running; attempts = job.attempts + 1; updated_at = now }
    save_running job'
    authority ← authority_now i work job'
    authorize_start work job' request_id authority

  abbrev authority_beq : DeliveryAuthority → DeliveryAuthority → Bool
  authority_beq a b =
      nat_beq a.audit_id b.audit_id
      && nat_beq a.bundle_sha256 b.bundle_sha256
      && nat_beq a.work_version b.work_version

  -- The last transaction of a publication.
  unfoldable pub finalize_delivery :
      Db → Key → (spell : Key → String) → DeliveryAuthority → (url : Key) → Report → Tx (Unit {0})
  unfolding lock_delivery complete_delivery
  finalize_delivery seen i spell authority url r = do
    (current, job) ← lock_delivery seen i is_running
    final ← lift (← authority_now i current job)
    require (authority_beq final authority) (delivery_error "approval_mismatch")
    complete_delivery spell current job url r

-- `audit_stopped_delivery`
unfoldable pub audit_stopped_delivery : Key → Report → Tx (Unit {0})
audit_stopped_delivery i r e db = elim (find i db.works) [
  | none ↦ ok (tt, db)
  | some work ↦ elim (find i db.jobs) [
    | none ↦ ok (tt, db)
    | some job ↦
        (record_delivery_audit work job (attempt_of delivery_stopped r (some "execution_fenced"))
            >> pure tt)
          e db
  ]
]
