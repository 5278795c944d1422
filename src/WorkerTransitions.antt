-- ===== src/WorkerTransitions.antt =====
-- apps/api/app/worker_transitions.py: the transitions that a lease may ask for.
pub mod Edges
pub mod Publication
use dev_agent.Base.{
  ℕ, ◌+◌, Key, Bool, true, false, Option, none, some, List, [], ◌∷◌, ◌&&◌, not, select, nat_beq,
  holds, is_some, if◌then◌else◌,
}
use dev_agent.Base.Table.{find}
use dev_agent.Models.{
  WorkItem, AuditRecord, WorkStatus, WorkerHost, pr_created, completed, get_field, is_text, is_bool,
  is_missing, as_count, work_keyed, worker_keyed, job_keyed, status_beq,
}
use dev_agent.Audit.{is_approval, is_human, is_approver, may_approve}
use dev_agent.Tx.{Tx, Error, http, pure, require, or_raise, reads, ◌>>=◌, ◌>>◌}
use Edges.{worker_edge}

abbrev pub denied : Error
denied = http 403 "worker cannot perform this transition"

-- `target in {WorkStatus.PR_CREATED, WorkStatus.COMPLETED}`
abbrev pub is_publication : WorkStatus → Bool
is_publication pr_created = true
is_publication completed = true
is_publication _ = false

-- `worker.labels.get("virtualization") == "mock"`
unfoldable pub is_mock : WorkerHost → Bool
is_mock w = is_text "mock" (get_field "virtualization" w.labels)

-- The condition of the query for the approval's audit record.
unfoldable pub approves_work : WorkItem → AuditRecord → Bool
approves_work item a =
    nat_beq a.organization_id item.organization_id
    && nat_beq a.work_item_id item.id
    && is_approval a.action
    && is_text "pull_request" (get_field "kind" a.details)

-- `.order_by(AuditRecord.id.desc()).limit(1)`: the audits are kept newest first.
abbrev pub newest : List AuditRecord → Option AuditRecord
newest [] = none
newest (a ∷ _) = some a

-- `type(version) is int and version == item.version - int(item.status == PR_CREATED)`
unfoldable pub version_fits : WorkItem → Option ℕ → Bool
version_fits item none = false
version_fits item (some v) =
    nat_beq (v + (if status_beq item.status pr_created then 1 else 0)) item.version

-- The last `if` of the function: the record is a human approval of this very version, of a run
-- with no central delivery.
unfoldable pub is_mock_approval : WorkItem → AuditRecord → Bool
unfolding version_fits
is_mock_approval item a =
    nat_beq a.repository item.repository
    && nat_beq a.correlation_id item.correlation_id
    && is_human a.transport
    && is_approver a.required_role
    && may_approve a.effective_role
    && is_text "approve" (get_field "decision" a.details)
    && is_bool false (get_field "delivery_queued" a.details)
    && is_missing (get_field "delivery_bundle_sha256" a.details)
    && is_text "awaiting_approval" (get_field "work_status_before" a.details)
    && is_text "committing" (get_field "work_status_after" a.details)
    && version_fits item (as_count (get_field "work_version_after" a.details))

-- The checks on a step to `pr_created` or `completed`.
unfoldable pub authorize_publication : WorkItem → Key → Tx (Unit {0})
unfolding is_mock is_mock_approval approves_work
authorize_publication item worker_id = do
  worker ← or_raise (← reads (λ db. find worker_id db.workers)) denied
  require (is_mock worker) denied
  job ← reads (λ db. find item.id db.jobs)
  require (not (is_some job)) denied
  source ← or_raise (← reads (λ db. newest (select (approves_work item) db.audits))) denied
  require (is_mock_approval item source) denied

unfoldable pub authorize_worker_transition : WorkItem → WorkStatus → Key → Tx (Unit {0})
authorize_worker_transition item target worker_id = do
  require (holds worker_id item.assigned_worker_id && worker_edge item.status target) denied
  if is_publication target then authorize_publication item worker_id else pure tt
