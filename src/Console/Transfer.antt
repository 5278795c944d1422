-- ===== src/Console/Transfer.antt =====
-- The transfer of a console (`console_lease` of apps/api/app/main.py).
use dev_agent.Base.{
  ℕ, suc, length, ◌+◌, ◌*◌, ◌∷◌, ◌≡◌, ◌≢◌, refl, Key, Option, some, true, arith, Option-cases, inl,
  inr, ◌⊎◌,
}
use dev_agent.Base.Table.{find, save, find-key, find-save}
use dev_agent.Models.{
  Db, WorkItem, ConsoleLease, Holder, agent, user, console_keyed, work_keyed, console_transferred,
  row_id, web,
}
use dev_agent.Authorization.{Actor, RoleDecision}
use dev_agent.Console.{
  ConsoleAction, acquire, release, transfer_console, new_holder, version_agrees, transfer_event,
  console_details,
}
use dev_agent.Approval.{actor_audit}
use dev_agent.Audit.{add_audit}
use dev_agent.Service.{emit_event, new_event}
use dev_agent.Service.Transition.{event_row}
use dev_agent.Tx.{Env, ok, err, Result-cases, http}

-- The holder before a transfer, and the one after it.
abbrev pub Hands : ConsoleAction → Key → Holder → Holder → Type 0
Hands acquire k h h' = ((h ≡ agent) ⊎ (h ≡ user k)) × (h' ≡ user k)
Hands release k h h' = (h ≡ user k) × (h' ≡ agent)

new_holder-Hands :
    (action : ConsoleAction) (k : Key) (h : Holder) {h' : Holder}
    → new_holder action k h ≡ ok h'
    → Hands action k h h'
unfolding new_holder
new_holder-Hands acquire k agent e = (inl refl, ground arith)
new_holder-Hands acquire k (user j) e = (ground arith, ground arith)
new_holder-Hands release k agent e = absurd (ground arith)
new_holder-Hands release k (user j) e = (ground arith, ground arith)

pub record Transferred (actor : Actor) (decision : RoleDecision) (item : WorkItem)
    (action : ConsoleAction) (expected : Option ℕ) (e : Env) (db : Db) (lease : ConsoleLease)
    (db' : Db) : Type 0 where
  pub before : ConsoleLease
  pub was : find item.id db.consoles ≡ some before
  pub agrees : version_agrees before.version expected ≡ true
  pub hands : Hands action actor.subject before.holder lease.holder
  pub of_work : lease.work_item_id ≡ before.work_item_id
  pub version : lease.version ≡ before.version + 1
  pub expires_at : lease.expires_at ≡ e.now + 15 * 60
  pub updated_at : lease.updated_at ≡ e.now
  pub database : db' ≡ record db {
    consoles = save lease db.consoles;
    events =
        event_row db.events item.id item.correlation_id
          (transfer_event actor action lease.holder)
          e.now
        ∷ db.events;
    audits =
        actor_audit item actor decision console_transferred
          (row_id item.id)
          web
          (console_details action before lease)
          e
          (suc (length db.audits))
          e.now
        ∷ db.audits;
  }

module _ (actor : Actor) (decision : RoleDecision) (item : WorkItem) (action : ConsoleAction)
    (expected : Option ℕ) (e : Env) (db : Db) where
  -- A transfer takes the console only from the agent or from the user who asks, and gives it back
  -- only for the user who holds it, at the stated version if one is stated. The console goes to the
  -- next version and to its new holder, for fifteen minutes; the transfer's event and an audit record of
  -- the console before and after it are added, and nothing else is written.
  pub transfer_ok :
      {lease : ConsoleLease} {db' : Db}
      → find item.id db.works ≡ some item
      → transfer_console actor decision item action expected e db ≡ ok (lease, db')
      → Transferred actor decision item action expected e db lease db'
  unfolding transfer_console add_audit emit_event event_row new_event
  transfer_ok {lease} {db'} there h = elim (Option-cases (find item.id db.consoles)) [
    | inl missing ↦ absurd (ground arith)
    | inr (old, was) ↦ elim (Result-cases (new_holder action actor.subject old.holder)) [
      | inl bad ↦ absurd (ground arith)
      | inr (h', good) ↦ record {
        before = old;
        was = was;
        agrees = ground arith;
        hands =
            (let moved : lease.holder ≡ h' = ground arith in
              rw moved (new_holder-Hands action actor.subject old.holder good));
        of_work = ground arith;
        version = ground arith;
        expires_at = ground arith;
        updated_at = ground arith;
        database = ground arith;
      }
    ]
  ]

  -- A transfer that states another version than the lease has is refused.
  transfer_stale :
      {c : ConsoleLease} {v : ℕ}
      → find item.id db.consoles ≡ some c
      → expected ≡ some v
      → c.version ≢ v
      → transfer_console actor decision item action expected e db
        ≡ err (http 409 "console lease version mismatch")
  unfolding transfer_console
  transfer_stale was stated other = ground arith

module _ (first second : Actor) (decision decision' : RoleDecision) (item : WorkItem)
    (action action' : ConsoleAction) (v : ℕ) (e e' : Env) (db : Db) where
  -- Of two transfers of the same console that state the same version, only one is done: once the
  -- first has returned, the second is refused with a conflict, whoever asks for what and when.
  pub transfer_once :
      {lease : ConsoleLease} {db' : Db}
      → find item.id db.works ≡ some item
      → transfer_console first decision item action (some v) e db ≡ ok (lease, db')
      → transfer_console second decision' item action' (some v) e' db'
        ≡ err (http 409 "console lease version mismatch")
  transfer_once {lease} {db'} there h =
      let t = transfer_ok first decision item action (some v) e db there h in
      let now_on : find item.id db'.consoles ≡ some lease = rw t.database (
        ground (
          arith,
          find-key item.id t.before db.consoles t.was,
          t.of_work,
          t.was,
          find-save item.id lease db.consoles,
        )) in
      transfer_stale second decision' item action' (some v) e' db' now_on refl
        (ground (arith, t.version, t.agrees))
