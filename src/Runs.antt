-- ===== src/Runs.antt =====
-- What a runner does with its lease's token (apps/api/app/main.py): status changes, events, commands
-- and the delivery bundle.
use dev_agent.Base.{
  ℕ, ◌*◌, Key, Time, Bool, true, false, Option, none, some, List, [], ◌∷◌, ◌&&◌, not, String,
  select, nat_beq, ltb,
}
use dev_agent.Base.Table.{find, save}
use dev_agent.Models.{
  Db, WorkItem, AgentEvent, DeliveryBundle, Feedback, Approval, WorkStatus, verifying,
  awaiting_approval, Fields, Json, end, field, num, text, worker_id, work_keyed, worker_keyed,
  bundle_keyed, preview_keyed, console_keyed,
}
use dev_agent.Leases.{validate_lease, get_work_item}
use dev_agent.Service.{EventCreate, new_event, emit_event, transition_work_item}
use dev_agent.Tx.{Tx, http, pure, require, reads, asks, modify, ◌>>=◌, ◌>>◌}

-- `TransitionRequest`; the message and the payload are those after `redact_worker_telemetry`.
pub record TransitionRequest : Type 0 where
  pub status : WorkStatus
  pub expected_version : ℕ
  pub message : String
  pub payload : Fields

module _ (seen : Db) (work_item_id : Key) (token : Option Key) (lease_seconds : ℕ) where
  -- The control plane's notice to Slack follows the commit and is not part of it.
  unfoldable pub worker_transition : TransitionRequest → Tx WorkItem
  worker_transition payload = do
    lease ← validate_lease seen work_item_id token lease_seconds
    item ← get_work_item work_item_id
    transition_work_item item (record {
      target = payload.status;
      expected_version = payload.expected_version;
      actor = worker_id lease.worker_id;
      worker_id = some lease.worker_id;
      message = payload.message;
      payload = payload.payload;
    })

  -- `safe_event` is the event after `redact_worker_telemetry`.
  unfoldable pub ingest_worker_event : (safe_event : EventCreate) → Tx AgentEvent
  ingest_worker_event safe_event = do
    validate_lease seen work_item_id token lease_seconds
    get_work_item work_item_id
    event ← new_event safe_event
    emit_event work_item_id event

  unfoldable pub lease_read_work : Tx WorkItem
  lease_read_work = do
    validate_lease seen work_item_id token lease_seconds
    get_work_item work_item_id

-- The rows after a cursor. The tables are newest first, and the answer is in the order of the ids.
unfoldable pub oldest_first {ℓ} : {A : Type ℓ} → List A → List A → List A
oldest_first done [] = done
oldest_first done (x ∷ xs) = oldest_first (x ∷ done) xs

pub record Commands : Type 0 where
  pub status : WorkStatus
  pub version : ℕ
  pub feedback : List Feedback
  pub approvals : List Approval

unfoldable pub runner_commands :
    Db → Key → Option Key → ℕ → (after_feedback after_approval : ℕ) → Tx Commands
unfolding oldest_first
runner_commands seen work_item_id token lease_seconds after_feedback after_approval = do
  validate_lease seen work_item_id token lease_seconds
  item ← get_work_item work_item_id
  db ← reads (λ db. db)
  pure (record {
    status = item.status;
    version = item.version;
    feedback =
        oldest_first [] (
          select (λ f. nat_beq f.work_item_id work_item_id && ltb after_feedback f.id) db.feedback);
    approvals =
        oldest_first [] (
          select (λ a. nat_beq a.work_item_id work_item_id && ltb after_approval a.id)
            db.approvals);
  })

-- `status in {VERIFYING, AWAITING_APPROVAL}`
abbrev pub takes_bundle : WorkStatus → Bool
takes_bundle verifying = true
takes_bundle awaiting_approval = true
takes_bundle _ = false

-- The `Content-Length` header: none (or empty), no number, a number below 0, or a number.
pub data ContentLength : Type 0 where
  absent malformed negative : ContentLength
  declared : ℕ → ContentLength

-- `MAX_BUNDLE_BYTES`
abbrev pub max_bundle_bytes : ℕ
max_bundle_bytes = 20 * 1024 * 1024

unfoldable pub check_length : ContentLength → Tx (Unit {0})
check_length absent = pure tt
check_length malformed = require false (http 400 "invalid content-length")
check_length negative = pure tt
check_length (declared n) =
    require (not (ltb max_bundle_bytes n)) (http 413 "bundle exceeds 20 MiB")

abbrev pub stored_bundle : Key → (checksum path : Key) → ℕ → Time → Option DeliveryBundle → Db → Db
stored_bundle i checksum path size now none db = record db {
  bundles =
      record {
        work_item_id = i;
        object_path = path;
        sha256 = checksum;
        size_bytes = size;
        created_at = now;
      }
      ∷ db.bundles;
}
stored_bundle i checksum path size now (some b) db = record db {
  bundles = save (record b { object_path = path; sha256 = checksum; size_bytes = size }) db.bundles;
}

-- `checksum` is the SHA-256 of the body, `size` its length, and `path` where it is written.
unfoldable pub upload_delivery_bundle :
    Db → Key → Option Key → ℕ → ContentLength → (size : ℕ) → (checksum path : Key) → Tx (Key × ℕ)
unfolding check_length
upload_delivery_bundle seen work_item_id token lease_seconds length size checksum path = do
  validate_lease seen work_item_id token lease_seconds
  item ← get_work_item work_item_id
  require (takes_bundle item.status)
      (http 409 "delivery bundles are accepted only after implementation verification")
  check_length length
  require (not (nat_beq size 0)) (http 422 "delivery bundle is empty")
  require (not (ltb max_bundle_bytes size)) (http 413 "bundle exceeds 20 MiB")
  now ← asks (λ e. e.now)
  modify (λ db. stored_bundle work_item_id checksum path size now (find work_item_id db.bundles) db)
  emit_event work_item_id (record {
    event_type = "delivery.bundle_uploaded";
    source = text "vm-runner";
    level = "info";
    message = "Verified patch bundle uploaded";
    payload = field "sha256" (Json.ident checksum) (field "size_bytes" (num size) end);
  })
  pure (checksum, size)
