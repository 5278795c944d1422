-- ===== src/Quarantine.antt =====
-- apps/api/app/worker_quarantine.py: a worker's control-plane access is revoked for good.
pub mod Loops
pub mod Fences
pub mod Shut
pub mod Works
use dev_agent.Base.{
  ℕ, ◌+◌, Key, Time, Bool, true, false, Option, none, some, List, [], ◌&&◌, not, String, length,
  nat_beq, holds, is_some, if◌then◌else◌,
}
use dev_agent.Base.Table.{find, save, keys_where, order_keys}
use dev_agent.Models.{
  Db, WorkItem, WorkerHost, WorkerCredential, ResourceLease, DeliveryJob, PreviewEndpoint,
  ConsoleLease, WorkStatus, failed, cancelled, committing, pr_created, offline, quarantined, fenced,
  is_active, is_runnable, revoked, quarantine, Json, end, field, text, work_keyed, worker_keyed,
  credential_keyed, lease_keyed, job_keyed, preview_keyed, console_keyed,
}
use dev_agent.Service.{Change, EventCreate, emit_event, transition_work_item}
use dev_agent.Leases.{is_terminal}
use dev_agent.Credentials.{validate_audit, lock_worker, record_event}
use dev_agent.Tx.{
  Tx, ok, Error, http, invalid, pure, require, or_raise, reads, asks, modify, for_each, ◌>>=◌, ◌>>◌,
}

pub record QuarantineResult : Type 0 where
  pub worker_id : Key
  pub already_quarantined : Bool
  pub revoked_credentials : ℕ
  pub invalidated_leases : ℕ
  pub affected_work_ids : List Key

abbrev pub quarantine_message : String
quarantine_message = "Worker quarantined; control-plane access revoked; physical cleanup required"

-- `ensure_worker_not_quarantined`
unfoldable pub ensure_worker_not_quarantined : WorkItem → Tx (Unit {0})
ensure_worker_not_quarantined work e db = elim work.assigned_worker_id [
  | none ↦ ok (tt, db)
  | some i ↦ elim (find i db.workers) [
    | none ↦ ok (tt, db)
    | some w ↦
        require (not (is_some w.quarantined_at)) (http 409 "work's worker is quarantined") e db
  ]
]

-- The loops go by the ids: a row of the session is one object, read as it is now. A row that a
-- query returned is there.
abbrev gone : Error
gone = invalid "row not found"

unfoldable pub live_credential : Key → WorkerCredential → Bool
live_credential w c = nat_beq c.worker_id w && not (is_some c.revoked_at)

unfoldable pub revoke_one : Key → String → String → Key → Tx (Unit {0})
unfolding record_event
revoke_one worker_id actor reason i = do
  credential ← or_raise (← reads (λ db. find i db.credentials)) gone
  now ← asks (λ e. e.now)
  modify (λ db. record db {
    credentials = save (record credential { revoked_at = some now }) db.credentials;
  })
  record_event worker_id (some credential.id) revoked actor reason

unfoldable pub held_lease : Key → ResourceLease → Bool
held_lease w l = nat_beq l.worker_id w && is_active l.state

unfoldable pub fence_lease : Key → Tx (Unit {0})
fence_lease i = do
  lease ← or_raise (← reads (λ db. find i db.leases)) gone
  now ← asks (λ e. e.now)
  modify (λ db. record db {
    leases = save (record lease { state = quarantined; expires_at = now }) db.leases;
  })

unfoldable pub is_assigned : Key → WorkItem → Bool
is_assigned w item = holds w item.assigned_worker_id

-- `job.state in {"pending", "retry", "running"}` is stopped; any other job stays as it is.
unfoldable pub fence_job : Time → DeliveryJob → DeliveryJob
fence_job now j =
    if is_runnable j.state
    then record j {
      state = fenced;
      error = some "worker quarantined; delivery blocked";
      updated_at = now;
    }
    else j

abbrev pub save_job : Time → Option DeliveryJob → Db → Db
save_job now none db = db
save_job now (some j) db = record db { jobs = save (fence_job now j) db.jobs }

abbrev pub save_preview : Time → Option PreviewEndpoint → Db → Db
save_preview now none db = db
save_preview now (some p) db = record db {
  previews = save (record p { expires_at = now }) db.previews;
}

abbrev pub save_console : Time → Option ConsoleLease → Db → Db
save_console now none db = db
save_console now (some c) db = record db {
  consoles = save (record c { expires_at = now; version = c.version + 1 }) db.consoles;
}

-- What the loop over the works does to the rows beside the work.
unfoldable pub close_outlets : Key → Time → Db → Db
unfolding fence_job
close_outlets i now db = record db {
  jobs = (save_job now (find i db.jobs) db).jobs;
  previews = (save_preview now (find i db.previews) db).previews;
  consoles = (save_console now (find i db.consoles) db).consoles;
}

abbrev pub stop_target : WorkStatus → WorkStatus
stop_target committing = failed
stop_target pr_created = failed
stop_target _ = cancelled

abbrev pub stop_change : WorkItem → Change
stop_change work = record {
  target = stop_target work.status;
  expected_version = work.version;
  actor = text "worker-admin";
  worker_id = none;
  message = quarantine_message;
  payload = end;
}

unfoldable pub stop_work : WorkItem → Tx (Unit {0})
stop_work work =
    if is_terminal work.status
    then pure tt
    else (do transition_work_item work (stop_change work); pure tt)

abbrev pub quarantine_event : Key → EventCreate
quarantine_event worker_id = record {
  event_type = "worker.quarantined";
  source = text "worker-admin";
  level = "error";
  message = quarantine_message;
  payload = field "worker_id" (Json.ident worker_id) end;
}

-- The body of the loop over the works.
unfoldable pub quarantine_work : Key → Key → Tx (Unit {0})
unfolding close_outlets stop_work
quarantine_work worker_id i = do
  work ← or_raise (← reads (λ db. find i db.works)) gone
  now ← asks (λ e. e.now)
  modify (close_outlets i now)
  stop_work work
  emit_event work.id (quarantine_event worker_id)
  pure tt

-- The worker's row: offline for good, with its reservations as they are.
unfoldable pub quarantined_worker : WorkerHost → Time → WorkerHost
quarantined_worker w now = record w {
  quarantined_at = some now;
  credential_required = true;
  state = offline;
}

unfoldable pub isolate : WorkerHost → String → String → Tx QuarantineResult
unfolding quarantined_worker
isolate worker actor reason = do
  now ← asks (λ e. e.now)
  modify (λ db. record db { workers = save (quarantined_worker worker now) db.workers })
  credentials ← reads (λ db. order_keys (keys_where (live_credential worker.id) db.credentials))
  for_each credentials (revoke_one worker.id actor reason)
  leases ← reads (λ db. order_keys (keys_where (held_lease worker.id) db.leases))
  for_each leases fence_lease
  works ← reads (λ db. order_keys (keys_where (is_assigned worker.id) db.works))
  for_each works (quarantine_work worker.id)
  record_event worker.id none quarantine actor reason
  pure (record {
    worker_id = worker.id;
    already_quarantined = false;
    revoked_credentials = length credentials;
    invalidated_leases = length leases;
    affected_work_ids = works;
  })

unfoldable pub quarantine_worker : Key → String → String → Tx QuarantineResult
unfolding isolate
quarantine_worker i actor reason = do
  validate_audit actor reason
  worker ← lock_worker i
  if is_some worker.quarantined_at
      then pure (record {
        worker_id = worker.id;
        already_quarantined = true;
        revoked_credentials = 0;
        invalidated_leases = 0;
        affected_work_ids = [];
      })
      else isolate worker actor reason
