-- ===== src/Leases.antt =====
-- The life of a lease: `validate_lease` of apps/api/app/service.py, `release_run` of
-- apps/api/app/main.py, and apps/api/app/worker_leases.py.
pub mod Reconcile
pub mod Validate
pub mod Release
pub mod Settled
pub mod Repeat
use dev_agent.Base.{
  ℕ, ◌+◌, ◌-◌, Key, Time, Bool, true, false, Option, none, some, ◌&&◌, not, min, nat_beq, ltb,
  is_some, if◌then◌else◌,
}
use dev_agent.Base.Table.{find, save}
use dev_agent.Base.Table.Rows.{first}
use dev_agent.Models.{
  Db, WorkItem, WorkerHost, ResourceLease, WorkStatus, completed, failed, cancelled, released,
  is_active, end, text, worker_id, work_keyed, worker_keyed, lease_keyed, job_keyed,
}
use dev_agent.Service.{EventCreate, emit_event}
use dev_agent.Tx.{
  Tx, Result, ok, err, Error, http, pure, raise, require, or_raise, reads, asks, modify, ◌>>=◌,
  ◌>>◌,
}

abbrev pub invalid_lease : Error
invalid_lease = http 401 "invalid lease token"

-- The `WHERE` of `validate_lease`.
unfoldable pub matches_token : Key → Key → ResourceLease → Bool
matches_token work_item_id hash l =
    nat_beq l.work_item_id work_item_id && nat_beq l.token_hash hash && is_active l.state

abbrev pub token_lease : Key → Key → Db → Option ResourceLease
token_lease work_item_id hash db = first (matches_token work_item_id hash) db.leases

-- The lease under the lock of its worker: both must still be good.
unfoldable pub check_lease : WorkerHost → Option ResourceLease → Time → Result ResourceLease
check_lease worker none now = err invalid_lease
check_lease worker (some lease) now =
    if is_some worker.quarantined_at
    then err invalid_lease
    else if ltb lease.expires_at now
    then err (http 401 "expired lease token")
    else ok lease

abbrev pub returned {ℓ} : {A : Type ℓ} → Result A → Tx A
returned (ok a) e db = ok (a, db)
returned (err x) e db = err x

-- `seen` is the database when the owner was first read, before the worker's lock was granted:
-- other transactions may have committed since. A missing token is `none`.
unfoldable pub validate_lease : Db → Key → Option Key → ℕ → Tx ResourceLease
unfolding check_lease
validate_lease seen work_item_id none lease_seconds = raise (http 401 "missing lease token")
validate_lease seen work_item_id (some token) lease_seconds = do
  hash ← asks (λ e. e.hash_token token)
  now ← asks (λ e. e.now)
  owner ← or_raise (token_lease work_item_id hash seen) invalid_lease
  worker ← or_raise (← reads (λ db. find owner.worker_id db.workers)) invalid_lease
  current ← reads (token_lease work_item_id hash)
  lease ← returned (check_lease worker current now)
  let renewed = record lease { expires_at = now + lease_seconds }
  modify (λ db. record db { leases = save renewed db.leases })
  pure renewed

-- `TERMINAL_WORK`
unfoldable pub is_terminal : WorkStatus → Bool
is_terminal completed = true
is_terminal failed = true
is_terminal cancelled = true
is_terminal _ = false

-- `return_lease_resources` on the worker; the lease is released beside it.
unfoldable pub return_resources : WorkerHost → ResourceLease → WorkerHost
return_resources w l = record w {
  cpu_available = min w.cpu_total (w.cpu_available + l.cpu);
  memory_mb_available = min w.memory_mb_total (w.memory_mb_available + l.memory_mb);
  disk_gb_available = w.disk_gb_available + l.disk_gb;
  active_runs = w.active_runs - 1;
}

unfoldable pub return_lease_resources : WorkerHost → ResourceLease → Tx (Unit {0})
unfolding return_resources
return_lease_resources w l = modify (λ db. record db {
  workers = save (return_resources w l) db.workers;
  leases = save (record l { state = released }) db.leases;
})

abbrev pub get_work_item : Key → Tx WorkItem
get_work_item i e db = or_raise (find i db.works) (http 404 "work item not found") e db

abbrev pub release_event : EventCreate
release_event = record {
  event_type = "lease.released";
  source = text "control-plane";
  level = "info";
  message = "Worker resources released";
  payload = end;
}

-- The end of `release_run`: what is done to the worker if it is there, and to the lease anyway.
unfoldable pub settle_lease : ResourceLease → Option WorkerHost → Tx (Unit {0})
unfolding return_lease_resources
settle_lease l none =
    modify (λ db. record db { leases = save (record l { state = released }) db.leases })
settle_lease l (some w) = return_lease_resources w l

-- The handler behind the lease check.
unfoldable pub finish_release : Key → ResourceLease → Tx (Unit {0})
unfolding is_terminal settle_lease
finish_release work_item_id lease = do
  item ← get_work_item work_item_id
  require (is_terminal item.status) (http 409 "only terminal work can release its lease")
  worker ← reads (λ db. find lease.worker_id db.workers)
  settle_lease lease worker
  emit_event work_item_id release_event
  pure tt

unfoldable pub release_run : Db → Key → Option Key → ℕ → Tx (Unit {0})
unfolding validate_lease finish_release
release_run seen work_item_id token lease_seconds = do
  lease ← validate_lease seen work_item_id token lease_seconds
  finish_release work_item_id lease
