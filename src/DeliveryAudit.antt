-- ===== src/DeliveryAudit.antt =====
-- apps/api/app/delivery_audit.py: the approval that a delivery rests on.
pub mod Authority
pub mod Approved
use dev_agent.Base.{
  ℕ, Key, Time, Bool, true, false, Option, none, some, ◌&&◌, String, nat_beq, is_some, ◌==◌,
  text_eq, if◌then◌else◌,
}
use dev_agent.Base.Table.{find}
use dev_agent.Models.{
  Db, WorkItem, AuditRecord, DeliveryJob, DeliveryBundle, JobState, Action, Fields, Json, end,
  field, null, num, str, get_field, is_text, is_bool, as_count, as_key, text, row_id, background,
  value, audit_keyed, pending, retry, running, done, broken, fenced,
}
use dev_agent.Audit.{add_audit, is_approval, is_human, is_approver, may_approve}
use dev_agent.Tx.{Tx, Result, ok, err, delivery_error}

pub record DeliveryAuthority : Type 0 where
  pub audit_id : ℕ
  pub bundle_sha256 : Key
  pub work_version : ℕ

-- `type(version) is int and version == item.version`, and the digest likewise with the bundle's.
-- `is_digest` is the test of the text by `[0-9a-f]{64}`.
abbrev pub is_count : ℕ → Option ℕ → Bool
is_count n none = false
is_count n (some m) = nat_beq m n

abbrev pub is_key : Key → Option Key → Bool
is_key k none = false
is_key k (some j) = nat_beq j k

-- The long condition of `delivery_authority`, negated: what it asks of the record's columns, …
unfoldable pub is_act_on : WorkItem → AuditRecord → Bool
is_act_on item source =
    is_approval source.action
    && is_human source.transport
    && nat_beq source.organization_id item.organization_id
    && nat_beq source.repository item.repository
    && nat_beq source.work_item_id item.id
    && nat_beq source.correlation_id item.correlation_id
    && is_approver source.required_role
    && may_approve source.effective_role

-- … of what was decided, …
unfoldable pub decides_delivery : Fields → Bool
decides_delivery details =
    is_text "pull_request" (get_field "kind" details)
    && is_text "approve" (get_field "decision" details)
    && is_bool true (get_field "delivery_queued" details)
    && is_text "committing" (get_field "work_status_after" details)

module _ (is_digest : Key → Bool) where
  -- … and of what it was decided for.
  unfoldable pub decides_bundle : WorkItem → DeliveryBundle → Fields → Bool
  decides_bundle item bundle details =
      is_count item.version (as_count (get_field "work_version_after" details))
      && is_digest bundle.sha256
      && is_key bundle.sha256 (as_key (get_field "delivery_bundle_sha256" details))

  unfoldable pub is_approval_of : WorkItem → DeliveryBundle → AuditRecord → Bool
  unfolding is_act_on decides_delivery decides_bundle
  is_approval_of item bundle source =
      is_act_on item source
      && decides_delivery source.details
      && decides_bundle item bundle source.details

  -- The checks in their order, on the rows that the function reads.
  unfoldable pub authority_of :
      WorkItem → Option AuditRecord → Option DeliveryBundle → Result DeliveryAuthority
  unfolding is_approval_of
  authority_of item none bundle = err (delivery_error "approval_unavailable")
  authority_of item (some source) none = err (delivery_error "bundle_unavailable")
  authority_of item (some source) (some bundle) =
      if is_approval_of item bundle source
      then ok (record {
        audit_id = source.id;
        bundle_sha256 = bundle.sha256;
        work_version = item.version;
      })
      else err (delivery_error "approval_mismatch")

  abbrev pub approval_row : DeliveryJob → Db → Option AuditRecord
  approval_row job db = elim job.approval_audit_id [ none ↦ none | some n ↦ find n db.audits ]

  unfoldable pub delivery_authority :
      WorkItem → DeliveryJob → Option DeliveryBundle → Db → Result DeliveryAuthority
  unfolding authority_of
  delivery_authority item job bundle db = authority_of item (approval_row job db) bundle

-- The texts that `record_delivery_audit` writes.
pub record Attempt : Type 0 where
  pub action : Action
  pub request_id : Key
  pub attempt : ℕ
  pub authority : Option DeliveryAuthority
  pub stage : String
  pub publication : String
  pub error_code : Option String
  pub pull_request_number : Option ℕ

abbrev pub opt_num : Option ℕ → Json
opt_num none = null
opt_num (some n) = num n

abbrev pub opt_key : Option Key → Json
opt_key none = null
opt_key (some k) = Json.ident k

abbrev pub opt_text : Option String → Json
opt_text none = null
opt_text (some s) = str s

abbrev pub job_state_text : JobState → String
job_state_text pending = "pending"
job_state_text retry = "retry"
job_state_text running = "running"
job_state_text done = "completed"
job_state_text broken = "failed"
job_state_text fenced = "quarantined"

-- The codes that mean that the authority was refused.
abbrev pub denies : Option String → Bool
denies none = false
denies (some c) =
    if c == "approval_unavailable"
    then true
    else if c == "approval_mismatch"
    then true
    else if c == "bundle_unavailable"
    then true
    else c == "bundle_integrity_failed"

unfoldable pub authorization_text : Option String → Option DeliveryAuthority → String
authorization_text code authority =
    if denies code then "denied" else if is_some authority then "verified" else "unavailable"

abbrev pub authority_audit : Option DeliveryAuthority → Option ℕ
authority_audit none = none
authority_audit (some a) = some a.audit_id

abbrev pub authority_digest : Option DeliveryAuthority → Option Key
authority_digest none = none
authority_digest (some a) = some a.bundle_sha256

abbrev pub authority_version : Option DeliveryAuthority → Option ℕ
authority_version none = none
authority_version (some a) = some a.work_version

unfoldable pub delivery_details : WorkItem → DeliveryJob → Attempt → Fields
unfolding authorization_text
delivery_details item job a = field "approval_audit_id" (opt_num (authority_audit a.authority)) (
    field "authorization" (str (authorization_text a.error_code a.authority)) (
      field "approved_bundle_sha256" (opt_key (authority_digest a.authority)) (
        field "approved_work_version" (opt_num (authority_version a.authority)) (
          field "attempt" (num a.attempt) (
            field "worker_id" (opt_key item.assigned_worker_id) (
              field "work_status" (str (value item.status)) (
                field "work_version" (num item.version) (
                  field "job_state" (str (job_state_text job.state)) (
                    field "stage" (str a.stage) (
                      field "error_code" (opt_text a.error_code) (
                        field "publication" (str a.publication) (
                          field "pull_request_number" (opt_num a.pull_request_number)
                            end))))))))))))

unfoldable pub delivery_audit : WorkItem → DeliveryJob → Attempt → ℕ → Time → AuditRecord
unfolding delivery_details
delivery_audit item job a n now = record {
  id = n;
  organization_id = item.organization_id;
  work_item_id = item.id;
  repository = item.repository;
  action = a.action;
  target_id = row_id item.id;
  actor_id = none;
  actor_subject = text "delivery:github";
  identity_provider = text "urn:kelpie:service";
  organization_role = none;
  repository_role = none;
  effective_role = none;
  required_role = none;
  request_id = a.request_id;
  correlation_id = item.correlation_id;
  source_ip = none;
  transport = background;
  details = delivery_details item job a;
  created_at = now;
}

unfoldable pub record_delivery_audit : WorkItem → DeliveryJob → Attempt → Tx AuditRecord
unfolding delivery_audit
record_delivery_audit item job a = add_audit (delivery_audit item job a)
