-- ===== src/Requests/Cancel.antt =====
-- What `cancel_queued_work` of apps/api/app/service.py asks for and writes.
use dev_agent.Base.{ℕ, ◌≡◌, Key, none, some, false, arith}
use dev_agent.Base.Table.{find}
use dev_agent.Models.{Db, WorkItem, queued, cancelled, work_keyed, ident, end}
use dev_agent.Requests.{cancel_queued_work, has_lease}
use dev_agent.Service.{Change, moved}
use dev_agent.Service.Transition.{moved_db, transition_ok}
use dev_agent.Tx.{Env, ok}

pub record Cancelled (item : WorkItem) (v : ℕ) (e : Env) (db : Db) (item' : WorkItem) (db' : Db)
    : Type 0 where
  pub was_queued : item.status ≡ queued
  pub unassigned : item.assigned_worker_id ≡ none
  pub never_leased : has_lease item.id db ≡ false
  pub expected : item.version ≡ v
  pub result : item' ≡ moved item cancelled e.now
  pub workers : db'.workers ≡ db.workers
  pub leases : db'.leases ≡ db.leases
  pub jobs : db'.jobs ≡ db.jobs

-- A cancellation that returns found unassigned queued work that no worker ever held, at the stated
-- version. It makes the work cancelled with the next version, and leaves the workers, the leases
-- and the deliveries as they are.
pub cancel_ok :
    (item : WorkItem) (v : ℕ) (actor : Key) (e : Env) (db : Db) {old item' : WorkItem} {db' : Db}
    → find item.id db.works ≡ some old
    → cancel_queued_work item v actor e db ≡ ok (item', db')
    → Cancelled item v e db item' db'
unfolding cancel_queued_work moved_db
cancel_ok item v actor e db {old} {item'} {db'} there h =
    let c : Change = record {
      target = cancelled;
      expected_version = v;
      actor = ident actor;
      worker_id = none;
      message = "Unassigned queued work cancelled by administrator";
      payload = end;
    } in
    let m = transition_ok item c e db {item' = item'} {db' = db'} there (ground arith) in
    record {
      was_queued = ground arith;
      unassigned = ground arith;
      never_leased = ground arith;
      expected = m.expected;
      result = m.result;
      workers = ground (arith, m.database);
      leases = ground (arith, m.database);
      jobs = ground (arith, m.database);
    }
