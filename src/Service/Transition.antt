-- ===== src/Service/Transition.antt =====
-- `transition_work_item` of apps/api/app/service.py and `authorize_worker_transition` of
-- apps/api/app/worker_transitions.py, on each outcome.
use text.Mathlib.TextEquality.{eq_iff}
use dev_agent.Base.{
  suc, ◌≡◌, ◌≢◌, refl, ◌⊎◌, inl, inr, Bool-cases, if◌then◌else◌, Key, Time, true, false, Option,
  none, some, List, ◌∷◌, arith, length, String, text_eq,
}
use dev_agent.Base.Table.{find, save, find-save_self}
use dev_agent.Models.{
  Db, WorkItem, AgentEvent, WorkStatus, Fields, get_field, get_field-put_field, str, value,
  work_keyed,
}
use dev_agent.StateMachine.{ensure_transition}
use dev_agent.WorkerTransitions.{authorize_worker_transition, authorize_publication}
use dev_agent.Service.{
  Change, emit_event, apply_transition, transition_work_item, moved, transition_event,
  transition_payload, authorize_change, EventCreate, fits, new_event,
}
use dev_agent.Tx.{Env, Result, ok, err, Error, invalid}

-- A check passes and writes nothing, or it raises.
abbrev pub Checks : Result (Unit {0} × Db) → Db → Type 0
Checks r db = (r ≡ ok (tt, db)) ⊎ ((x : Error) × (r ≡ err x))

authorize_publication-Checks :
    (item : WorkItem) (w : Key) (e : Env) (db : Db) → Checks (authorize_publication item w e db) db
unfolding authorize_publication
authorize_publication-Checks item w e db = ground arith

pub authorize_worker_transition-Checks :
    (item : WorkItem) (t : WorkStatus) (w : Key) (e : Env) (db : Db)
    → Checks (authorize_worker_transition item t w e db) db
unfolding authorize_worker_transition
authorize_worker_transition-Checks item t w e db =
    ground (arith, authorize_publication-Checks item w e db)

pub authorize_change-Checks :
    (item : WorkItem) (t : WorkStatus) (w : Option Key) (e : Env) (db : Db)
    → Checks (authorize_change item t w e db) db
authorize_change-Checks item t none e db = inl refl
authorize_change-Checks item t (some w) e db = authorize_worker_transition-Checks item t w e db

-- The event that is added to the work item's history.
unfoldable pub event_row : List AgentEvent → Key → Key → EventCreate → Time → AgentEvent
event_row events work_item_id correlation_id event now = record {
  id = suc (length events);
  work_item_id = work_item_id;
  correlation_id = correlation_id;
  event_type = event.event_type;
  source = event.source;
  level = event.level;
  message = event.message;
  payload = event.payload;
  created_at = now;
}

-- The database after a transition: one row and one event.
unfoldable pub moved_db : WorkItem → Change → Time → Db → Db
moved_db item c now db = record db {
  works = save (moved item c.target now) db.works;
  events =
      event_row db.events item.id item.correlation_id (transition_event item c) now ∷ db.events;
}

pub record Moved (item : WorkItem) (c : Change) (e : Env) (db : Db) (item' : WorkItem) (db' : Db)
    : Type 0 where
  pub expected : item.version ≡ c.expected_version
  pub edge : ensure_transition item.status c.target ≡ true
  pub short : fits e.text_length (transition_event item c) ≡ true
  pub authorized : authorize_change item c.target c.worker_id e db ≡ ok (tt, db)
  pub result : item' ≡ moved item c.target e.now
  pub database : db' ≡ moved_db item c e.now db

pub emit_event_found :
    (i : Key) (event : EventCreate) (e : Env) (db : Db) {item : WorkItem}
    → find i db.works ≡ some item
    → emit_event i event e db
      ≡ ok (
        event_row db.events i item.correlation_id event e.now,
        record db { events = event_row db.events i item.correlation_id event e.now ∷ db.events },
      )
unfolding emit_event event_row
emit_event_found i event e db h = ground arith

module _ (item : WorkItem) (c : Change) (e : Env) (db : Db) where
  -- The event is built, or a text of it is too long.
  apply_transition_long :
      fits e.text_length (transition_event item c) ≡ false
      → apply_transition item c e db ≡ err (invalid "event")
  unfolding apply_transition new_event
  apply_transition_long long = ground arith

  apply_transition_found :
      {old : WorkItem}
      → fits e.text_length (transition_event item c) ≡ true
      → find item.id db.works ≡ some old
      → apply_transition item c e db ≡ ok (moved item c.target e.now, moved_db item c e.now db)
  unfolding apply_transition moved_db moved new_event
  apply_transition_found short there =
      let item' : WorkItem = moved item c.target e.now in
      let saved : Db = record db { works = save item' db.works } in
      ground (
        arith,
        emit_event_found item.id (transition_event item c) e saved
            (find-save_self item' db.works there),
      )

  -- A transition that returns met every check, and made exactly this change.
  pub transition_ok :
      {old item' : WorkItem} {db' : Db}
      → find item.id db.works ≡ some old
      → transition_work_item item c e db ≡ ok (item', db')
      → Moved item c e db item' db'
  unfolding transition_work_item
  transition_ok there h = ground (
    arith,
    authorize_change-Checks item c.target c.worker_id e db,
    Bool-cases (fits e.text_length (transition_event item c)),
    apply_transition_long,
    λ (short : fits e.text_length (transition_event item c) ≡ true).
        apply_transition_found short there,
  )

  -- A change of a stored item at the expected version, along an edge of the graph, and one that the
  -- worker may take, returns with the changed row and its event if the actor's name and the message
  -- are short enough for an event; if they are not, it is an error.
  pub transition_total :
      {old : WorkItem}
      → find item.id db.works ≡ some old
      → item.version ≡ c.expected_version
      → ensure_transition item.status c.target ≡ true
      → authorize_change item c.target c.worker_id e db ≡ ok (tt, db)
      → transition_work_item item c e db ≡ (
          if fits e.text_length (transition_event item c)
          then ok (moved item c.target e.now, moved_db item c e.now db)
          else err (invalid "event"))
  unfolding transition_work_item
  transition_total there v edge a =
      elim (Bool-cases (fits e.text_length (transition_event item c))) [
        | inl short ↦ ground (arith, apply_transition_found short there)
        | inr long ↦ ground (arith, apply_transition_long long)
      ]

-- The event's payload says which statuses the control plane saw, whatever the caller put there;
-- the caller's other fields are kept.
pub transition_payload_facts :
    (payload : Fields) (s t : WorkStatus)
    → let p = transition_payload payload s t in
      (get_field "from" p ≡ some (str (value s)))
      × (get_field "to" p ≡ some (str (value t)))
      × ((k : String) → k ≢ "from" → k ≢ "to" → get_field k p ≡ get_field k payload)
unfolding transition_payload
transition_payload_facts payload s t = (
  simp get_field-put_field,
  simp get_field-put_field,
  λ k f t'. simp get_field-put_field (ground (arith, eq_iff "to" k, eq_iff "from" k)),
)
