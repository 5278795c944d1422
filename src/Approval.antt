-- ===== src/Approval.antt =====
-- `decide_approval`, `validate_delivery_ready` and `queue_delivery` of apps/api/app/main.py, with
-- `record_approval_audit` of apps/api/app/audit.py.
pub mod Decide
use dev_agent.Base.{
  ℕ, Key, Time, Bool, true, false, Option, none, some, ◌∷◌, ◌&&◌, not, String, nat_beq,
  if◌then◌else◌,
}
use dev_agent.Base.Table.{find, save}
use dev_agent.Models.{
  Db, WorkItem, WorkerHost, WorkStatus, AuditRecord, Action, Approval, ApprovalKind, Decision,
  DeliveryJob, DeliveryBundle, Transport, Target, Fields, Json, end, field, null, bool, num, str,
  pull_request, budget, console, approve, reject, approval_decided, row_number, pending, retry,
  done, ident, value, work_keyed, worker_keyed, bundle_keyed, job_keyed,
}
use dev_agent.Audit.{add_audit}
use dev_agent.Authorization.{Actor, RoleDecision}
use dev_agent.WorkerTransitions.{is_mock}
use dev_agent.Tx.{Tx, Env, ok, err, http, invalid, asks, ◌>>=◌, ◌>>◌}

-- What `validate_delivery_ready` asks of the GitHub client, and of the bundle's file
-- (`verified_bundle_bytes`).
pub record Publisher : Type 0 where
  pub configured : Bool
  pub is_intact : DeliveryBundle → Bool

-- `item.github_installation_id` is set and not 0.
abbrev pub has_installation : Option ℕ → Bool
has_installation none = false
has_installation (some n) = not (nat_beq n 0)

abbrev pub assigned_worker : WorkItem → Db → Option WorkerHost
assigned_worker item db = elim item.assigned_worker_id [ none ↦ none | some i ↦ find i db.workers ]

abbrev pub is_mock_worker : Option WorkerHost → Bool
is_mock_worker none = false
is_mock_worker (some w) = is_mock w

unfoldable pub validate_delivery_ready : Publisher → WorkItem → Tx Bool
unfolding is_mock
validate_delivery_ready p item e db =
    if is_mock_worker (assigned_worker item db)
    then ok (false, db)
    else elim (find item.id db.bundles) [
      | none ↦ err (http 409 "the runner has not uploaded a verified delivery bundle")
      | some bundle ↦
          if not (has_installation item.github_installation_id && p.configured)
          then err (http 409 "GitHub App installation is not configured for this repository")
          else if p.is_intact bundle
          then ok (true, db)
          else err (http 409 "delivery bundle is unavailable or invalid")
    ]

abbrev pub requeued : ℕ → Option DeliveryJob → Key → Time → Db → Db
requeued n none work_item_id now db = record db {
  jobs =
      record {
        work_item_id = work_item_id;
        state = pending;
        approval_audit_id = some n;
        attempts = 0;
        error = none;
        created_at = now;
        updated_at = now;
      }
      ∷ db.jobs;
}
requeued n (some job) work_item_id now db = elim job.state [
  | done ↦ db
  | _ ↦ record db {
    jobs =
        save
          (record job { state = retry; error = none; approval_audit_id = some n; updated_at = now })
          db.jobs;
  }
]

unfoldable pub queue_delivery : WorkItem → (approval_audit_id : ℕ) → Tx (Unit {0})
queue_delivery item n e db = ok (tt, requeued n (find item.id db.jobs) item.id e.now db)

-- `ApprovalCreate` of schemas.py
pub record ApprovalCreate : Type 0 where
  pub kind : ApprovalKind
  pub decision : Decision
  pub expected_version : Option ℕ
  pub payload : Fields

-- `ApprovalState.capture`
pub record ApprovalState : Type 0 where
  pub budget_minutes : ℕ
  pub status : WorkStatus
  pub version : ℕ

abbrev pub capture : WorkItem → ApprovalState
capture item = record {
  budget_minutes = item.budget_minutes;
  status = item.status;
  version = item.version;
}

abbrev pub kind_text : ApprovalKind → String
kind_text pull_request = "pull_request"
kind_text budget = "budget"
kind_text console = "console"

abbrev pub decision_text : Decision → String
decision_text approve = "approve"
decision_text reject = "reject"

abbrev pub digest_json : Option DeliveryBundle → Json
digest_json none = null
digest_json (some b) = Json.ident b.sha256

unfoldable pub approval_details :
    WorkItem → Approval → ApprovalState → Bool → Option DeliveryBundle → Fields
approval_details item approval before delivery_queued bundle =
    field "kind" (str (kind_text approval.kind)) (
      field "decision" (str (decision_text approval.decision)) (
        field "budget_minutes_before" (num before.budget_minutes) (
          field "budget_minutes_after" (num item.budget_minutes) (
            field "work_status_before" (str (value before.status)) (
              field "work_status_after" (str (value item.status)) (
                field "work_version_before" (num before.version) (
                  field "work_version_after" (num item.version) (
                    field "delivery_queued" (bool delivery_queued)
                      (field "delivery_bundle_sha256" (digest_json bundle) end)))))))))

-- `_record_actor_audit`: the record of what a person did.
unfoldable pub actor_audit :
    WorkItem
    → Actor
    → RoleDecision
    → Action
    → Target
    → Transport
    → Fields
    → Env
    → ℕ
    → Time
    → AuditRecord
actor_audit item actor decision action target transport details e n now = record {
  id = n;
  organization_id = item.organization_id;
  work_item_id = item.id;
  repository = item.repository;
  action = action;
  target_id = target;
  actor_id = actor.principal_id;
  actor_subject = ident actor.subject;
  identity_provider = actor.identity_provider;
  organization_role = some decision.organization_role;
  repository_role = decision.repository_role;
  effective_role = some decision.effective_role;
  required_role = some decision.required_role;
  request_id = e.request_id;
  correlation_id = item.correlation_id;
  source_ip = e.source_ip;
  transport = transport;
  details = details;
  created_at = now;
}

-- The bundle is read only when a delivery is queued, and then it must be there.
unfoldable pub approved_bundle : WorkItem → Bool → Tx (Option DeliveryBundle)
approved_bundle item false e db = ok (none, db)
approved_bundle item true e db = elim (find item.id db.bundles) [
  | none ↦ err (invalid "queued delivery requires its approved bundle audit identity")
  | some b ↦ ok (some b, db)
]

unfoldable pub record_approval_audit :
    WorkItem → Actor → RoleDecision → Approval → ApprovalState → Transport → Bool → Tx AuditRecord
unfolding approved_bundle actor_audit approval_details
record_approval_audit item actor decision approval before transport delivery_queued = do
  bundle ← approved_bundle item delivery_queued
  e ← asks (λ e. e)
  add_audit (
      actor_audit item actor decision approval_decided (row_number approval.id) transport
        (approval_details item approval before delivery_queued bundle) e)
