-- ===== src/Examples/People.antt =====
-- The theorems on what people ask for, at the data of Examples.
use dev_agent.Base.{Key, none, some, [], ◌∷◌, true, false, refl, arith, ◌≡◌, Bool, nat_beq, not}
use dev_agent.Base.Table.{find}
use dev_agent.Models.{
  Db, Approval, pull_request, approve, end, committing, awaiting_approval, viewer, approver, web,
  DeliveryJob, is_runnable, job_keyed, pending, ConsoleLease, user,
}
use dev_agent.Examples.{
  env, later, db, in_review, waiting, bundle, member, outsider, console_row, value_or,
}
use dev_agent.Approval.{ApprovalState}
use dev_agent.Approval.Decide.{conclude}
use dev_agent.Authorization.{RoleDecision, authorized_work_with_decision}
use dev_agent.Authorization.Access.{WorkAccess, authorized_work_ok, other_organization_hidden}
use dev_agent.Console.{transfer_console, acquire}
use dev_agent.Console.Transfer.{Transferred, transfer_ok, transfer_once}
use dev_agent.DeliveryAudit.{DeliveryAuthority, delivery_authority}
use dev_agent.DeliveryAudit.Authority.{Authorizes, authority_ok}
use dev_agent.DeliveryAudit.Approved.{conclude-delivery_authority}
use dev_agent.Previews.{resolve_preview}
use dev_agent.Previews.Resolve.{Shown, resolve_ok}
use dev_agent.Requests.{cancel_queued_work}
use dev_agent.Requests.Cancel.{Cancelled, cancel_ok}
use dev_agent.Examples.{host}
use dev_agent.Models.{field, str, pr_created}
use dev_agent.Base.{holds}
use dev_agent.WorkerTransitions.Edges.{worker_edge}
use dev_agent.WorkerTransitions.Publication.{Publishes, worker-Publishes}
use dev_agent.Tx.{after, ok, err, http}

abbrev as_approver : RoleDecision
as_approver = record {
  organization_role = viewer;
  repository_role = some approver;
  effective_role = approver;
  required_role = approver;
}

abbrev approval : Approval
approval = record {
  id = 1;
  work_item_id = 12;
  kind = pull_request;
  decision = approve;
  actor = 3;
  payload = end;
  created_at = 100;
}

abbrev before : ApprovalState
before = record { budget_minutes = 60; status = awaiting_approval; version = 6 }

abbrev pub is_digest : Key → Bool
is_digest k = nat_beq k 62

abbrev authority : DeliveryAuthority
authority = record { audit_id = 1; bundle_sha256 = 62; work_version = 7 }

conclude-delivery_authority_example :
    (db' : Db) × (job : DeliveryJob) × (conclude in_review member as_approver approval before web
        true env db
      ≡ ok (in_review, db'))
    × (find 12 db'.jobs ≡ some job)
    × (is_runnable job.state ≡ true)
    × (delivery_authority is_digest in_review job (some bundle) db' ≡ ok authority)
unfolding find
conclude-delivery_authority_example =
    conclude-delivery_authority is_digest in_review bundle member as_approver approval before web
      env db refl refl refl refl refl refl refl refl refl

abbrev pub approved : Db
approved = after db (conclude in_review member as_approver approval before web true env db)

abbrev queued_job : DeliveryJob
queued_job = record {
  work_item_id = 12;
  state = pending;
  approval_audit_id = some 1;
  attempts = 0;
  error = none;
  created_at = 100;
  updated_at = 100;
}

authority_ok_example : Authorizes in_review queued_job bundle approved authority
unfolding delivery_authority conclude find dev_agent.Approval.record_approval_audit
    dev_agent.Audit.add_audit dev_agent.Approval.queue_delivery dev_agent.Models.get_field
authority_ok_example = authority_ok is_digest in_review queued_job bundle approved refl

authorized_work_ok_example :
    WorkAccess (λ k. k) member 12 approver db in_review as_approver × (db ≡ db)
unfolding authorized_work_with_decision find
    dev_agent.Authorization.authorize_repository_with_decision
authorized_work_ok_example = authorized_work_ok (λ k. k) member 12 approver env db refl

abbrev empty : Db
empty = record db { works = [] }

other_organization_hidden_example :
    (authorized_work_with_decision (λ k. k) outsider 12 viewer env db
      ≡ err (http 404 "work item not found"))
    × (authorized_work_with_decision (λ k. k) outsider 12 viewer env empty
        ≡ err (http 404 "work item not found"))
unfolding find
other_organization_hidden_example =
    other_organization_hidden (λ k. k) outsider 12 viewer env db {item = in_review} refl
      (omega arith) empty refl

abbrev taken : ConsoleLease
taken = record console_row { holder = user 3; version = 2; expires_at = 1000; updated_at = 100 }

transfer_ok_example :
    Transferred member as_approver in_review acquire
      (some 1)
      env
      db
      taken
      (after db (transfer_console member as_approver in_review acquire (some 1) env db))
unfolding transfer_console find dev_agent.Service.emit_event dev_agent.Audit.add_audit
transfer_ok_example = transfer_ok member as_approver in_review acquire (some 1) env db refl refl

transfer_once_example :
    transfer_console outsider as_approver in_review acquire
      (some 1)
      later
      (after db (transfer_console member as_approver in_review acquire (some 1) env db))
    ≡ err (http 409 "console lease version mismatch")
unfolding transfer_console find dev_agent.Service.emit_event dev_agent.Audit.add_audit
transfer_once_example =
    transfer_once member outsider as_approver as_approver in_review acquire acquire 1 env later db
      {lease = taken} refl refl

resolve_ok_example :
    Shown db 71 false env db (record { target_url = 72; work_item_id = 12; read_only = true })
unfolding resolve_preview dev_agent.Base.Table.Rows.first find
resolve_ok_example = resolve_ok db 71 false env db refl

cancel_ok_example :
    Cancelled waiting 1 env db
      (value_or waiting (cancel_queued_work waiting 1 3 env db))
      (after db (cancel_queued_work waiting 1 3 env db))
unfolding cancel_queued_work find dev_agent.Service.transition_work_item
    dev_agent.StateMachine.ensure_transition dev_agent.Service.apply_transition
    dev_agent.Service.transition_event dev_agent.Service.emit_event dev_agent.Base.Table.save
cancel_ok_example = cancel_ok waiting 1 3 env db {old = waiting} refl refl

abbrev mock_db : Db
mock_db = record db {
  workers = record host { labels = field "virtualization" (str "mock") end } ∷ [];
}

-- The approval of a mock run queues no delivery.
abbrev mock_approved : Db
mock_approved =
    after mock_db (conclude in_review member as_approver approval before web false env mock_db)

worker-Publishes_example :
    (holds 1 in_review.assigned_worker_id ≡ true)
    × (worker_edge committing pr_created ≡ true)
    × Publishes in_review 1 mock_approved
unfolding conclude dev_agent.WorkerTransitions.authorize_worker_transition worker_edge
    dev_agent.WorkerTransitions.authorize_publication find dev_agent.Approval.record_approval_audit
    dev_agent.Audit.add_audit dev_agent.Models.get_field
worker-Publishes_example = worker-Publishes in_review pr_created 1 env mock_approved refl refl
