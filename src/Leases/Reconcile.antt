-- ===== src/Leases/Reconcile.antt =====
-- `reconcile_terminal_lease` of apps/api/app/worker_leases.py, for a worker that lost a run's token.
use dev_agent.Base.{
  ℕ, Key, Time, Bool, true, false, Option, none, some, ◌&&◌, not, any, nat_beq, holds, is_some,
  if◌then◌else◌,
}
use dev_agent.Base.Table.{find}
use dev_agent.Base.Table.Rows.{first}
use dev_agent.Models.{
  WorkItem, WorkerHost, ResourceLease, AuditRecord, DeliveryJob, LeaseState, WorkStatus, active,
  released, is_active, is_released, is_finished, Json, Fields, end, field, str, num, bool, text,
  worker_id, row_id, background, lease_reconciled, work_keyed, worker_keyed, lease_keyed, job_keyed,
  value,
}
use dev_agent.Audit.{add_audit, is_reconciliation, targets}
use dev_agent.Service.{EventCreate, emit_event}
use dev_agent.Leases.{is_terminal, return_lease_resources}
use dev_agent.Tx.{Tx, http, pure, require, or_raise, reads, asks, ◌>>=◌, ◌>>◌}

-- The query of `owned_lease`.
unfoldable pub is_owned : WorkerHost → Key → ResourceLease → Bool
is_owned worker lease_id l = nat_beq l.id lease_id && nat_beq l.worker_id worker.id

unfoldable pub owned_lease : WorkerHost → Key → Tx (ResourceLease × WorkItem)
unfolding is_owned
owned_lease worker lease_id = do
  require (not (is_some worker.quarantined_at)) (http 403 "worker is quarantined")
  lease ←
      or_raise (← reads (λ db. first (is_owned worker lease_id) db.leases))
        (http 404 "lease not found")
  item ←
      or_raise (← reads (λ db. find lease.work_item_id db.works))
        (http 409 "lease assignment no longer matches worker")
  require (holds worker.id item.assigned_worker_id)
      (http 409 "lease assignment no longer matches worker")
  pure (lease, item)

-- `WorkerLeaseView`
pub record WorkerLeaseView : Type 0 where
  pub lease_id : Key
  pub worker_id : Key
  pub work_item_id : Key
  pub state : LeaseState
  pub work_status : WorkStatus
  pub work_version : ℕ
  pub cpu : ℕ
  pub memory_mb : ℕ
  pub disk_gb : ℕ

unfoldable pub lease_view : ResourceLease → WorkItem → WorkerLeaseView
lease_view l w = record {
  lease_id = l.id;
  worker_id = l.worker_id;
  work_item_id = w.id;
  state = l.state;
  work_status = w.status;
  work_version = w.version;
  cpu = l.cpu;
  memory_mb = l.memory_mb;
  disk_gb = l.disk_gb;
}

-- `LeaseReconciliationRequest`; a request with `cleanup_confirmed` other than true is refused
-- before it gets here.
pub record ReconciliationRequest : Type 0 where
  pub work_item_id : Key
  pub expected_version : ℕ

-- `lease.state not in {"active", "released"}`, negated.
abbrev pub is_reconcilable : LeaseState → Bool
is_reconcilable active = true
is_reconcilable released = true
is_reconcilable _ = false

-- `job is not None and job.state not in {"completed", "failed"}`, negated.
abbrev pub delivery_is_over : Option DeliveryJob → Bool
delivery_is_over none = true
delivery_is_over (some j) = is_finished j.state

-- The query for an earlier reconciliation of this lease.
unfoldable pub records_reconciliation : WorkItem → ResourceLease → AuditRecord → Bool
records_reconciliation item lease a =
    nat_beq a.work_item_id item.id && targets lease.id a.target_id && is_reconciliation a.action

abbrev pub state_text : LeaseState → Fields → Fields
state_text active d = field "lease_state_before" (str "active") d
state_text _ d = field "lease_state_before" (str "released") d

unfoldable pub reconciliation_audit :
    WorkerHost → ResourceLease → WorkItem → Key → ℕ → Time → AuditRecord
reconciliation_audit worker lease item request_id n now = record {
  id = n;
  organization_id = item.organization_id;
  work_item_id = item.id;
  repository = item.repository;
  action = lease_reconciled;
  target_id = row_id lease.id;
  actor_id = none;
  actor_subject = worker_id worker.id;
  identity_provider = text "worker-credential";
  organization_role = none;
  repository_role = none;
  effective_role = none;
  required_role = none;
  request_id = request_id;
  correlation_id = item.correlation_id;
  source_ip = none;
  transport = background;
  details = field "worker_id" (Json.ident worker.id) (
      field "cleanup_confirmed" (bool true) (
        state_text lease.state (
          field "lease_state_after" (str "released") (
            field "work_status" (str (value item.status)) (
              field "work_version" (num item.version) (
                field "cpu" (num lease.cpu) (
                  field "memory_mb" (num lease.memory_mb)
                    (field "disk_gb" (num lease.disk_gb) end))))))));
  created_at = now;
}

unfoldable pub reconciliation_event : WorkerHost → ResourceLease → EventCreate
reconciliation_event worker lease = record {
  event_type = "lease.released";
  source = text "control-plane";
  level = "info";
  message = "Worker resources reconciled after declared physical cleanup";
  payload =
      field "worker_id" (Json.ident worker.id)
        (field "lease_id" (Json.ident lease.id) (field "reconciled" (bool true) end));
}

-- The first reconciliation of a lease: the resources go back if they were still held.
unfoldable pub settle : WorkerHost → ResourceLease → WorkItem → Tx (Unit {0})
unfolding reconciliation_audit reconciliation_event return_lease_resources
settle worker lease item = do
  if is_active lease.state then return_lease_resources worker lease else pure tt
  request_id ← asks (λ e. e.request_id)
  add_audit (reconciliation_audit worker lease item request_id)
  if is_active lease.state
      then (do emit_event item.id (reconciliation_event worker lease); pure tt)
      else pure tt

unfoldable pub reconcile_terminal_lease : WorkerHost → Key → ReconciliationRequest → Tx (Unit {0})
unfolding owned_lease settle records_reconciliation is_terminal
reconcile_terminal_lease worker lease_id payload = do
  (lease, item) ← owned_lease worker lease_id
  require (nat_beq item.id payload.work_item_id && nat_beq item.version payload.expected_version)
      (http 409 "lease work identity or version mismatch")
  require (is_terminal item.status) (http 409 "only terminal work can reconcile its lease")
  require (is_reconcilable lease.state) (http 409 "lease cannot be reconciled")
  job ← reads (λ db. find item.id db.jobs)
  require (delivery_is_over job) (http 409 "delivery is not safely finished")
  recorded ← reads (λ db. any (records_reconciliation item lease) db.audits)
  if recorded
      then require (is_released lease.state)
          (http 409 "lease contradicts its reconciliation history")
      else settle worker lease item
