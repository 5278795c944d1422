-- ===== src/Console.antt =====
-- `console_lease` of apps/api/app/main.py: who holds the console of a run.
pub mod Transfer
use dev_agent.Base.{
  ℕ, ◌+◌, ◌*◌, Key, Bool, true, false, Option, none, some, not, String, nat_beq, if◌then◌else◌,
}
use dev_agent.Base.Table.{find, save}
use dev_agent.Models.{
  WorkItem, ConsoleLease, Holder, agent, user, operator, Fields, Json, end, field, str, num,
  console_transferred, row_id, web, ident, console_keyed,
}
use dev_agent.Approval.{actor_audit}
use dev_agent.Audit.{add_audit}
use dev_agent.Authorization.{Actor, RoleDecision, authorized_work_with_decision}
use dev_agent.Quarantine.{ensure_worker_not_quarantined}
use dev_agent.Service.{EventCreate, new_event, emit_event}
use dev_agent.Tx.{
  lift, Tx, Result, ok, err, http, pure, require, or_raise, reads, asks, modify, ◌>>=◌, ◌>>◌,
}

pub data ConsoleAction : Type 0 where
  acquire release : ConsoleAction

-- `payload.expected_version is not None and lease.version != payload.expected_version`, negated.
abbrev pub version_agrees : ℕ → Option ℕ → Bool
version_agrees n none = true
version_agrees n (some m) = nat_beq n m

-- `holder_type` is "user" and `holder` is this subject.
abbrev pub is_held_by : Key → Holder → Bool
is_held_by k agent = false
is_held_by k (user j) = nat_beq j k

abbrev pub is_held_by_other : Key → Holder → Bool
is_held_by_other k agent = false
is_held_by_other k (user j) = not (nat_beq j k)

-- The holder after the request.
unfoldable pub new_holder : ConsoleAction → Key → Holder → Result Holder
new_holder acquire subject h =
    if is_held_by_other subject h
    then err (http 409 "console is held by another user")
    else ok (user subject)
new_holder release subject h =
    if is_held_by subject h then ok agent else err (http 409 "actor does not hold the console")

abbrev pub holder_type : Holder → String
holder_type agent = "agent"
holder_type (user k) = "user"

abbrev pub holder_json : Holder → Json
holder_json agent = str "agent"
holder_json (user k) = Json.ident k

abbrev message_of : ConsoleAction → String
message_of acquire = "Agent UI input paused; console transferred to user"
message_of release = "Console returned to agent"

abbrev action_text : ConsoleAction → String
action_text acquire = "acquire"
action_text release = "release"

unfoldable pub transfer_event : Actor → ConsoleAction → Holder → EventCreate
transfer_event actor action h = record {
  event_type = "console.transferred";
  source = ident actor.subject;
  level = "info";
  message = message_of action;
  payload = field "holder_type" (str (holder_type h)) (field "holder" (holder_json h) end);
}

-- `record_console_audit`; the expiry is kept as a number of seconds.
unfoldable pub console_details : ConsoleAction → ConsoleLease → ConsoleLease → Fields
console_details action before lease = field "action" (str (action_text action)) (
    field "holder_type_before" (str (holder_type before.holder)) (
      field "holder_before" (holder_json before.holder) (
        field "version_before" (num before.version) (
          field "holder_type_after" (str (holder_type lease.holder)) (
            field "holder_after" (holder_json lease.holder) (
              field "version_after" (num lease.version)
                (field "expires_at" (num lease.expires_at) end)))))))

-- The part of the handler after the access checks.
unfoldable pub transfer_console :
    Actor → RoleDecision → WorkItem → ConsoleAction → Option ℕ → Tx ConsoleLease
unfolding new_holder transfer_event console_details new_event
transfer_console actor decision item action expected_version = do
  lease ← or_raise (← reads (λ db. find item.id db.consoles)) (http 404 "console is not registered")
  require (version_agrees lease.version expected_version)
      (http 409 "console lease version mismatch")
  holder' ← lift (new_holder action actor.subject lease.holder)
  now ← asks (λ e. e.now)
  let lease' = record lease {
    holder = holder';
    version = lease.version + 1;
    expires_at = now + 15 * 60;
    updated_at = now;
  }
  modify (λ db. record db { consoles = save lease' db.consoles })
  event ← new_event (transfer_event actor action holder')
  emit_event item.id event
  e ← asks (λ e. e)
  add_audit (
      actor_audit item actor decision console_transferred (row_id item.id) web
        (console_details action lease lease') e)
  pure lease'

unfoldable pub console_lease :
    (lower : Key → Key) → Actor → Key → ConsoleAction → Option ℕ → Tx ConsoleLease
unfolding transfer_console
console_lease lower actor work_item_id action expected_version = do
  (item, decision) ← authorized_work_with_decision lower actor work_item_id operator
  ensure_worker_not_quarantined item
  transfer_console actor decision item action expected_version
