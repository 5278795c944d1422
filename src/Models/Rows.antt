-- ===== src/Models/Rows.antt =====
-- The rows of apps/api/app/models.py, with the columns in their order. A text that joins a prefix
-- to an identifier is a constructor applied to the identifier.
use dev_agent.Base.{ℕ, Key, Time, Bool, Option, String}
use dev_agent.Base.Table.{Keyed}
use dev_agent.Models.Status.{
  WorkStatus, WorkSource, WorkerState, Role, LeaseState, JobState, Transport,
}
use dev_agent.Models.Values.{Fields}

-- `text` is a literal, `ident` a stored text, `worker_name n` is f"worker:{n}" of a name and
-- `worker_id i` the same of an id.
pub data Name : Type 0 where
  text : String → Name
  ident worker_name worker_id : Key → Name

-- The actions that the code writes to `AuditRecord.action`.
pub data Action : Type 0 where
  approval_decided feedback_created work_cancelled console_transferred : Action
  lease_reconciled : Action
  delivery_started delivery_completed delivery_failed delivery_stopped : Action
  delivery_interrupted : Action
  expiration_requested artifact_purged : Action

-- `AuditRecord.target_id`: the text of a row number, or the id of a row.
pub data Target : Type 0 where
  row_number : ℕ → Target
  row_id : Key → Target

pub record AuditRecord : Type 0 where
  pub id : ℕ
  pub organization_id : Key
  pub work_item_id : Key
  pub repository : Key
  pub action : Action
  pub target_id : Target
  pub actor_id : Option Key
  pub actor_subject : Name
  pub identity_provider : Name
  pub organization_role : Option Role
  pub repository_role : Option Role
  pub effective_role : Option Role
  pub required_role : Option Role
  pub request_id : Key
  pub correlation_id : Key
  pub source_ip : Option Key
  pub transport : Transport
  pub details : Fields
  pub created_at : Time

pub record WorkItem : Type 0 where
  pub id : Key
  pub organization_id : Key
  pub correlation_id : Key
  pub source : WorkSource
  pub source_external_id : Option Key
  pub title : String
  pub requirement : String
  pub repository : Key
  pub status : WorkStatus
  pub version : ℕ
  pub requested_by : Key
  pub assigned_worker_id : Option Key
  pub budget_minutes : ℕ
  pub budget_cost : Option Key
  pub replan_limit : ℕ
  pub approval_required : Bool
  pub github_installation_id : Option ℕ
  pub github_issue_number : Option ℕ
  pub pull_request_url : Option Key
  pub created_at : Time
  pub updated_at : Time

pub record Organization : Type 0 where
  pub id : Key
  pub issuer : Option Key
  pub claim : Option Key

pub record Principal : Type 0 where
  pub id : Key
  pub issuer : Key
  pub subject : Key

pub record Membership : Type 0 where
  pub organization_id : Key
  pub principal_id : Key
  pub role : Role

pub record Repository : Type 0 where
  pub name : Key
  pub organization_id : Key
  pub github_installation_id : Option ℕ

pub record RepositoryGrant : Type 0 where
  pub repository : Key
  pub principal_id : Key
  pub role : Role

pub record SlackIdentity : Type 0 where
  pub team_id : Key
  pub user_id : Key
  pub principal_id : Key
  pub organization_id : Key

pub record AgentEvent : Type 0 where
  pub id : ℕ
  pub work_item_id : Key
  pub correlation_id : Key
  pub event_type : String
  pub source : Name
  pub level : String
  pub message : String
  pub payload : Fields
  pub created_at : Time

pub record WorkerHost : Type 0 where
  pub id : Key
  pub name : Key
  pub credential_required : Bool
  pub quarantined_at : Option Time
  pub state : WorkerState
  pub cpu_total : ℕ
  pub cpu_available : ℕ
  pub memory_mb_total : ℕ
  pub memory_mb_available : ℕ
  pub disk_gb_available : ℕ
  pub active_runs : ℕ
  pub labels : Fields
  pub last_seen_at : Time
  pub created_at : Time

pub record WorkerCredential : Type 0 where
  pub id : Key
  pub worker_id : Key
  pub token_hash : Key
  pub expires_at : Time
  pub revoked_at : Option Time
  pub last_used_at : Option Time
  pub created_at : Time

-- `WorkerCredentialEvent.action`
pub data CredentialAction : Type 0 where
  issued rotated revoked quarantine : CredentialAction

pub record WorkerCredentialEvent : Type 0 where
  pub id : ℕ
  pub worker_id : Key
  pub credential_id : Option Key
  pub action : CredentialAction
  pub actor : String
  pub reason : String
  pub created_at : Time

pub record ResourceLease : Type 0 where
  pub id : Key
  pub work_item_id : Key
  pub worker_id : Key
  pub token_hash : Key
  pub state : LeaseState
  pub cpu : ℕ
  pub memory_mb : ℕ
  pub disk_gb : ℕ
  pub expires_at : Time
  pub created_at : Time

pub record Feedback : Type 0 where
  pub id : ℕ
  pub work_item_id : Key
  pub actor : Key
  pub channel : Transport
  pub message : String
  pub created_at : Time

-- `Approval.kind` and `Approval.decision`
pub data ApprovalKind : Type 0 where
  pull_request budget console : ApprovalKind

pub data Decision : Type 0 where
  approve reject : Decision

pub record Approval : Type 0 where
  pub id : ℕ
  pub work_item_id : Key
  pub kind : ApprovalKind
  pub decision : Decision
  pub actor : Key
  pub payload : Fields
  pub created_at : Time

pub record PreviewEndpoint : Type 0 where
  pub id : Key
  pub work_item_id : Key
  pub hostname : Key
  pub target_url : Key
  pub console_target_url : Option Key
  pub expires_at : Time
  pub created_at : Time

-- `ConsoleLease.holder_type` and `holder`
pub data Holder : Type 0 where
  agent : Holder
  user : Key → Holder

pub record ConsoleLease : Type 0 where
  pub work_item_id : Key
  pub holder : Holder
  pub version : ℕ
  pub expires_at : Time
  pub updated_at : Time

pub record DeliveryBundle : Type 0 where
  pub work_item_id : Key
  pub object_path : Key
  pub sha256 : Key
  pub size_bytes : ℕ
  pub created_at : Time

pub record Artifact : Type 0 where
  pub id : Key
  pub work_item_id : Key
  pub kind : Key
  pub name : Key
  pub content_type : Key
  pub object_key : Key
  pub size_bytes : ℕ
  pub created_at : Time
  pub expired_at : Option Time
  pub purged_at : Option Time
  pub retention_days : Option ℕ
  pub retention_sha256 : Option Key

pub record DeliveryJob : Type 0 where
  pub work_item_id : Key
  pub state : JobState
  pub approval_audit_id : Option ℕ
  pub attempts : ℕ
  pub error : Option String
  pub created_at : Time
  pub updated_at : Time

instance abbrev pub work_keyed : Keyed WorkItem
work_keyed = record { key = λ w. w.id }

instance abbrev pub worker_keyed : Keyed WorkerHost
worker_keyed = record { key = λ w. w.id }

instance abbrev pub credential_keyed : Keyed WorkerCredential
credential_keyed = record { key = λ c. c.id }

instance abbrev pub lease_keyed : Keyed ResourceLease
lease_keyed = record { key = λ l. l.id }

instance abbrev pub audit_keyed : Keyed AuditRecord
audit_keyed = record { key = λ a. a.id }

instance abbrev pub organization_keyed : Keyed Organization
organization_keyed = record { key = λ o. o.id }

instance abbrev pub principal_keyed : Keyed Principal
principal_keyed = record { key = λ p. p.id }

instance abbrev pub repository_keyed : Keyed Repository
repository_keyed = record { key = λ r. r.name }

-- `PreviewEndpoint.work_item_id` is unique, and the queries go by it.
instance abbrev pub preview_keyed : Keyed PreviewEndpoint
preview_keyed = record { key = λ p. p.work_item_id }

instance abbrev pub console_keyed : Keyed ConsoleLease
console_keyed = record { key = λ c. c.work_item_id }

instance abbrev pub bundle_keyed : Keyed DeliveryBundle
bundle_keyed = record { key = λ b. b.work_item_id }

instance abbrev pub job_keyed : Keyed DeliveryJob
job_keyed = record { key = λ j. j.work_item_id }

instance abbrev pub artifact_keyed : Keyed Artifact
artifact_keyed = record { key = λ a. a.id }
