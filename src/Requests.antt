-- ===== src/Requests.antt =====
-- What a person asks of a work item: `submit_work`, `cancel_work` and `add_feedback` of
-- apps/api/app/main.py, with `cancel_queued_work` of apps/api/app/service.py.
pub mod Cancel
use dev_agent.Base.{
  ℕ, suc, Key, Bool, true, false, none, ◌∷◌, ◌&&◌, not, String, any, length, nat_beq, is_some,
  if◌then◌else◌,
}
use dev_agent.Models.{
  Db, WorkItem, Feedback, Transport, web, slack, background, WorkStatus, queued, cancelled,
  implementing, awaiting_feedback, awaiting_approval, awaiting_input, operator, administrator,
  Fields, end, field, str, num, ident, row_id, row_number, work_cancelled, feedback_created,
  status_beq, value, web_source,
}
use dev_agent.Approval.{actor_audit}
use dev_agent.Audit.{add_audit}
use dev_agent.Authorization.{
  Actor, authorized_work_with_decision, authorize_repository_with_decision,
}
use dev_agent.Quarantine.{ensure_worker_not_quarantined}
use dev_agent.Service.{
  WorkItemCreate, new_event, emit_event, create_work_item, ensure_feedback_allowed,
  transition_work_item,
}
use dev_agent.Tx.{Tx, ok, http, pure, require, reads, asks, ◌>>=◌, ◌>>◌}

-- `select(ResourceLease.id).where(ResourceLease.work_item_id == item.id)`
abbrev pub has_lease : Key → Db → Bool
has_lease i db = any (λ l. nat_beq l.work_item_id i) db.leases

unfoldable pub cancel_queued_work : WorkItem → (expected_version : ℕ) → (actor : Key) → Tx WorkItem
cancel_queued_work item expected_version actor = do
  require (status_beq item.status queued && not (is_some item.assigned_worker_id))
      (http 409 "only unassigned queued work can be cancelled")
  history ← reads (has_lease item.id)
  require (not history) (http 409 "work with execution history cannot be cancelled")
  transition_work_item item (record {
    target = cancelled;
    expected_version = expected_version;
    actor = ident actor;
    worker_id = none;
    message = "Unassigned queued work cancelled by administrator";
    payload = end;
  })

-- `record_cancellation_audit`
unfoldable pub cancellation_details : WorkItem → (version_before : ℕ) → Fields
cancellation_details item version_before = field "scope" (str "unassigned_queue") (
    field "work_status_before" (str "queued") (
      field "work_status_after" (str (value item.status)) (
        field "work_version_before" (num version_before)
          (field "work_version_after" (num item.version) end))))

unfoldable pub cancel_work :
    (lower : Key → Key) → Actor → Key → (expected_version : ℕ) → Tx WorkItem
unfolding cancel_queued_work cancellation_details
cancel_work lower actor work_item_id expected_version = do
  (item, decision) ← authorized_work_with_decision lower actor work_item_id administrator
  item' ← cancel_queued_work item expected_version actor.subject
  e ← asks (λ e. e)
  add_audit (
      actor_audit item' actor decision work_cancelled (row_id item'.id) web
        (cancellation_details item' item.version) e)
  pure item'

abbrev pub channel_text : Transport → String
channel_text web = "web"
channel_text slack = "slack"
channel_text background = "background"

unfoldable pub add_feedback_row : Key → Key → Transport → String → Tx Feedback
add_feedback_row work_item_id actor channel message e db =
    let row : Feedback = record {
      id = suc (length db.feedback);
      work_item_id = work_item_id;
      actor = actor;
      channel = channel;
      message = message;
      created_at = e.now;
    } in
    ok (row, record db { feedback = row ∷ db.feedback })

-- The statuses in which feedback resumes the implementation.
abbrev pub resumes : WorkStatus → Bool
resumes awaiting_feedback = true
resumes awaiting_approval = true
resumes awaiting_input = true
resumes _ = false

unfoldable pub resume : WorkItem → (actor : Key) → Tx WorkItem
resume item actor =
    if resumes item.status
    then transition_work_item item (record {
      target = implementing;
      expected_version = item.version;
      actor = ident actor;
      worker_id = none;
      message = "Feedback received; resuming implementation";
      payload = end;
    })
    else pure item

unfoldable pub add_feedback :
    (lower : Key → Key) → Actor → Key → (channel : Transport) → (message : String) → Tx WorkItem
unfolding add_feedback_row resume
add_feedback lower actor work_item_id channel message = do
  (item, decision) ← authorized_work_with_decision lower actor work_item_id operator
  ensure_worker_not_quarantined item
  ensure_feedback_allowed item
  feedback ← add_feedback_row work_item_id actor.subject channel message
  event ← new_event (record {
    event_type = "feedback.received";
    source = ident actor.subject;
    level = "info";
    message = message;
    payload = field "channel" (str (channel_text channel)) end;
  })
  emit_event work_item_id event
  item' ← resume item actor.subject
  e ← asks (λ e. e)
  add_audit (actor_audit item' actor decision feedback_created (row_number feedback.id) web end e)
  pure item'

-- `submit_work` when the service is not in development mode; `id` and `correlation_id` are the ones
-- that the columns' defaults draw.
unfoldable pub submit_work :
    (lower : Key → Key) → Actor → WorkItemCreate → (id correlation_id : Key) → Tx WorkItem
submit_work lower actor payload id correlation_id = do
  (repository, decision) ←
      authorize_repository_with_decision lower actor payload.repository operator
  create_work_item payload (record {
    id = id;
    source = web_source;
    requested_by = actor.subject;
    organization_id = actor.organization;
    source_external_id = none;
    github_installation_id = repository.github_installation_id;
    github_issue_number = none;
    correlation_id = correlation_id;
  })
