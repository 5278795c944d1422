-- ===== src/Service.antt =====
-- apps/api/app/service.py: events, new work items, and the one place where a status changes.
pub mod Transition
use dev_agent.Base.{
  ℕ, suc, ◌+◌, Key, Time, Bool, true, false, Option, none, some, List, ◌∷◌, ◌||◌, ◌&&◌, leb, not,
  String, length, any, nat_beq, holds, ◌==◌, text_eq, if◌then◌else◌,
}
use dev_agent.Base.Table.{find, save}
use dev_agent.Models.{
  WorkItem, AgentEvent, WorkStatus, WorkSource, web_source, github_source, autonomous_source,
  Fields, end, str, put_field, Name, text, queued, provisioning, analyzing, implementing, verifying,
  awaiting_feedback, awaiting_approval, awaiting_input, budget_exhausted, value, work_keyed, ident,
  worker_name,
}
use dev_agent.StateMachine.{ensure_transition}
use dev_agent.WorkerTransitions.{authorize_worker_transition}
use dev_agent.Tx.{Tx, ok, err, http, invalid, pure, require, reads, asks, modify, ◌>>=◌, ◌>>◌}
use Prim.Native.String.{◌++◌, count}

-- `ensure_feedback_allowed`: the work still takes feedback.
unfoldable pub takes_feedback : WorkStatus → Bool
takes_feedback queued = true
takes_feedback provisioning = true
takes_feedback analyzing = true
takes_feedback implementing = true
takes_feedback verifying = true
takes_feedback awaiting_feedback = true
takes_feedback awaiting_approval = true
takes_feedback awaiting_input = true
takes_feedback budget_exhausted = true
takes_feedback _ = false

unfoldable pub ensure_feedback_allowed : WorkItem → Tx (Unit {0})
unfolding takes_feedback
ensure_feedback_allowed item =
    require (takes_feedback item.status) (http 409 "work no longer accepts feedback")

-- schemas.py; `event` has the defaults.
pub record EventCreate : Type 0 where
  pub event_type : String
  pub source : Name
  pub level : String
  pub message : String
  pub payload : Fields

-- The longest `source` and `message` of an event.
abbrev pub max_source : ℕ
max_source = 100

abbrev pub max_message : ℕ
max_message = 100000

unfoldable pub name_length : (text_length : Key → ℕ) → Name → ℕ
name_length text_length (text s) = count s
name_length text_length (ident k) = text_length k
name_length text_length (worker_name k) = count "worker:" + text_length k
name_length text_length (Name.worker_id k) = count "worker:" + text_length k

-- The limits of the fields whose text is not the program's own.
unfoldable pub fits : (text_length : Key → ℕ) → EventCreate → Bool
unfolding name_length
fits text_length event =
    leb (name_length text_length event.source) max_source && leb (count event.message) max_message

-- `EventCreate(…)`: a text that is too long is a `ValidationError`, which is a `ValueError`.
unfoldable pub new_event : EventCreate → Tx EventCreate
unfolding fits
new_event event = do
  text_length ← asks (λ e. e.text_length)
  require (fits text_length event) (invalid "event")
  pure event

unfoldable pub emit_event : Key → EventCreate → Tx AgentEvent
emit_event work_item_id event e db = elim (find work_item_id db.works) [
  | none ↦ err (http 404 "work item not found")
  | some item ↦
      let row : AgentEvent = record {
        id = suc (length db.events);
        work_item_id = work_item_id;
        correlation_id = item.correlation_id;
        event_type = event.event_type;
        source = event.source;
        level = event.level;
        message = event.message;
        payload = event.payload;
        created_at = e.now;
      } in
      ok (row, record db { events = row ∷ db.events })
]

pub record WorkItemCreate : Type 0 where
  pub title : String
  pub requirement : String
  pub repository : Key
  pub budget_minutes : ℕ
  pub budget_cost : Option Key

-- The keyword arguments of `create_work_item`, with the id that the column's default draws.
pub record Origin : Type 0 where
  pub id : Key
  pub source : WorkSource
  pub requested_by : Key
  pub organization_id : Key
  pub source_external_id : Option Key
  pub github_installation_id : Option ℕ
  pub github_issue_number : Option ℕ
  pub correlation_id : Key

abbrev pub source_value : WorkSource → String
source_value web_source = "web"
source_value github_source = "github"
source_value autonomous_source = "autonomous"

unfoldable pub new_work_item : WorkItemCreate → Origin → Time → WorkItem
new_work_item payload o now = record {
  id = o.id;
  organization_id = o.organization_id;
  correlation_id = o.correlation_id;
  source = o.source;
  source_external_id = o.source_external_id;
  title = payload.title;
  requirement = payload.requirement;
  repository = payload.repository;
  status = queued;
  version = 1;
  requested_by = o.requested_by;
  assigned_worker_id = none;
  budget_minutes = payload.budget_minutes;
  budget_cost = payload.budget_cost;
  replan_limit = 3;
  approval_required = true;
  github_installation_id = o.github_installation_id;
  github_issue_number = o.github_issue_number;
  pull_request_url = none;
  created_at = now;
  updated_at = now;
}

-- The unique columns of the table that the new row meets again: `IntegrityError`.
unfoldable pub collides : WorkItem → List WorkItem → Bool
collides w ws =
    any
      (λ x.
        nat_beq x.id w.id
        || (elim w.source_external_id [ none ↦ false | some k ↦ holds k x.source_external_id ]))
      ws

unfoldable pub create_work_item : WorkItemCreate → Origin → Tx WorkItem
unfolding new_work_item
create_work_item payload o = do
  now ← asks (λ e. e.now)
  let item = new_work_item payload o now
  works ← reads (λ db. db.works)
  require (not (collides item works)) (http 409 "work item already exists")
  modify (λ db. record db { works = item ∷ db.works })
  emit_event item.id (record {
    event_type = "work.created";
    source = text "control-plane";
    level = "info";
    message = "Work item created from " ++ source_value o.source;
    payload = end;
  })
  pure item

-- The keyword arguments of `transition_work_item`.
pub record Change : Type 0 where
  pub target : WorkStatus
  pub expected_version : ℕ
  pub actor : Name
  pub worker_id : Option Key
  pub message : String
  pub payload : Fields

abbrev pub authorize_change : WorkItem → WorkStatus → Option Key → Tx (Unit {0})
authorize_change item target none = pure tt
authorize_change item target (some worker_id) = authorize_worker_transition item target worker_id

-- `{**(payload or {}), "from": previous, "to": target}`
unfoldable pub transition_payload : Fields → WorkStatus → WorkStatus → Fields
transition_payload payload previous target =
    put_field "to" (str (value target)) (put_field "from" (str (value previous)) payload)

unfoldable pub transition_event : WorkItem → Change → EventCreate
unfolding transition_payload
transition_event item c = record {
  event_type = "work.transitioned";
  source = c.actor;
  level = "info";
  message = if c.message == "" then value item.status ++ " → " ++ value c.target else c.message;
  payload = transition_payload c.payload item.status c.target;
}

-- The row after the assignments.
unfoldable pub moved : WorkItem → WorkStatus → Time → WorkItem
moved item target now = record item {
  status = target;
  version = item.version + 1;
  updated_at = now;
}

-- The assignments and the event, once the change is authorized.
unfoldable pub apply_transition : WorkItem → Change → Tx WorkItem
unfolding moved new_event
apply_transition item c = do
  now ← asks (λ e. e.now)
  let item' = moved item c.target now
  modify (λ db. record db { works = save item' db.works })
  event ← new_event (transition_event item c)
  emit_event item'.id event
  pure item'

unfoldable pub transition_work_item : WorkItem → Change → Tx WorkItem
transition_work_item item c = do
  require (nat_beq item.version c.expected_version) (http 409 "version mismatch")
  require (ensure_transition item.status c.target) (http 409 "cannot transition")
  authorize_change item c.target c.worker_id
  apply_transition item c
