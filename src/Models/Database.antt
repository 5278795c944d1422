-- ===== src/Models/Database.antt =====
-- The database that the handlers share: the tables of apps/api/app/models.py.
use dev_agent.Base.{List}
use dev_agent.Models.Rows.{
  WorkItem, WorkerHost, WorkerCredential, WorkerCredentialEvent, ResourceLease, AgentEvent,
  AuditRecord, Feedback, Approval, PreviewEndpoint, ConsoleLease, DeliveryBundle, DeliveryJob,
  Artifact, Organization, Principal, Membership, Repository, RepositoryGrant, SlackIdentity,
}

-- Who belongs to which organization, and what they may do (apps/api/app/iam.py writes it).
pub record Iam : Type 0 where
  pub organizations : List Organization
  pub principals : List Principal
  pub memberships : List Membership
  pub repositories : List Repository
  pub grants : List RepositoryGrant
  pub slack_identities : List SlackIdentity

pub record Db : Type 0 where
  pub works : List WorkItem
  pub workers : List WorkerHost
  pub credentials : List WorkerCredential
  pub credential_events : List WorkerCredentialEvent
  pub leases : List ResourceLease
  pub events : List AgentEvent
  pub audits : List AuditRecord
  pub feedback : List Feedback
  pub approvals : List Approval
  pub previews : List PreviewEndpoint
  pub consoles : List ConsoleLease
  pub bundles : List DeliveryBundle
  pub jobs : List DeliveryJob
  pub artifacts : List Artifact
  pub iam : Iam
