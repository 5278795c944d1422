-- ===== src/Retention/Records.antt =====
-- The records of a purge: `record_audit` and `intent` of apps/api/app/artifact_retention.py.
use dev_agent.Base.{
  ℕ, Key, Time, Bool, true, false, Option, none, some, List, [], ◌∷◌, ◌&&◌, nat_beq, nat_eq,
}
use dev_agent.Base.Table.{save}
use dev_agent.Models.{
  WorkItem, Artifact, AuditRecord, Action, background, row_id, text, field, num, str, ident, null,
  end, Json, value, work_keyed, worker_keyed, job_keyed, console_keyed, artifact_keyed,
}
use dev_agent.Audit.{add_audit}
use dev_agent.Tx.{Tx, pure, modify, ◌>>◌}
use dev_agent.Retention.Group.{same_option}

abbrev pub opt_number : Option ℕ → Json
opt_number none = null
opt_number (some n) = num n

abbrev pub opt_digest : Option Key → Json
opt_digest none = null
opt_digest (some k) = ident k

-- `record_audit` up to the id and the time
unfoldable pub retention_audit :
    WorkItem → Artifact → Action → (request_id : Key) → ℕ → Time → AuditRecord
retention_audit work row action request_id n now = record {
  id = n;
  organization_id = work.organization_id;
  work_item_id = work.id;
  repository = work.repository;
  action = action;
  target_id = row_id row.id;
  actor_id = none;
  actor_subject = text "artifact:retention";
  identity_provider = text "urn:kelpie:service";
  organization_role = none;
  repository_role = none;
  effective_role = none;
  required_role = none;
  request_id = request_id;
  correlation_id = work.correlation_id;
  source_ip = none;
  transport = background;
  details = field "retention_days" (opt_number row.retention_days) (
      field "sha256" (opt_digest row.retention_sha256) (
        field "size_bytes" (num row.size_bytes) (
          field "work_status" (str (value work.status))
            (field "work_version" (num work.version) end))));
  created_at = now;
}

abbrev pub change_artifact : WorkItem → Artifact → Action → (request_id : Key) → Tx (Unit {0})
change_artifact work row action request_id = do
  modify (λ db. record db { artifacts = save row db.artifacts })
  add_audit (retention_audit work row action request_id)
  pure tt

-- `intent`, of one row
pub record Intent : Type 0 where
  pub id : Key
  pub work_item_id : Key
  pub object_key : Key
  pub size_bytes : ℕ
  pub expired_at : Option Time
  pub retention_days : Option ℕ
  pub retention_sha256 : Option Key

unfoldable pub intents : List Artifact → List Intent
intents [] = []
intents (r ∷ rs) =
    (record {
      id = r.id;
      work_item_id = r.work_item_id;
      object_key = r.object_key;
      size_bytes = r.size_bytes;
      expired_at = r.expired_at;
      retention_days = r.retention_days;
      retention_sha256 = r.retention_sha256;
    })
    ∷ intents rs

abbrev pub same_intent : Intent → Intent → Bool
same_intent a b =
    nat_beq a.id b.id
    && nat_beq a.work_item_id b.work_item_id
    && nat_beq a.object_key b.object_key
    && nat_beq a.size_bytes b.size_bytes
    && same_option a.expired_at b.expired_at
    && same_option a.retention_days b.retention_days
    && same_option a.retention_sha256 b.retention_sha256

abbrev pub same_intents : List Intent → List Intent → Bool
same_intents [] [] = true
same_intents (a ∷ as_) (b ∷ bs) = same_intent a b && same_intents as_ bs
same_intents _ _ = false
