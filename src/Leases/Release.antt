-- ===== src/Leases/Release.antt =====
-- What `release_run` of apps/api/app/main.py asks for and writes.
use dev_agent.Base.{
  ℕ, ◌≡◌, refl, inl, inr, Key, true, Option, none, some, List, ◌∷◌, arith, Option-cases,
}
use dev_agent.Base.Table.{find, save}
use dev_agent.Base.Table.Rows.{save-save}
use dev_agent.Models.{
  Db, WorkItem, ResourceLease, WorkerHost, released, work_keyed, lease_keyed, worker_keyed,
}
use dev_agent.Leases.{
  validate_lease, finish_release, release_run, is_terminal, settle_lease, return_resources,
  release_event,
}
use dev_agent.Leases.Validate.{Validated, validate_ok}
use dev_agent.Service.Transition.{event_row, emit_event_found}
use dev_agent.Tx.{Env, ok, Result-cases}

-- The workers' table after the resources of a lease went back.
abbrev pub settled_workers : ResourceLease → Option WorkerHost → List WorkerHost → List WorkerHost
settled_workers l none ws = ws
settled_workers l (some w) ws = save (return_resources w l) ws

settle_lease-db :
    (l : ResourceLease) (w : Option WorkerHost) (e : Env) (db : Db)
    → settle_lease l w e db
      ≡ ok (
        tt,
        record db {
          workers = settled_workers l w db.workers;
          leases = save (record l { state = released }) db.leases;
        },
      )
unfolding settle_lease
settle_lease-db l none e db = refl
settle_lease-db l (some w) e db = refl

-- The database after the end of the handler.
abbrev pub released_db : Key → ResourceLease → WorkItem → Env → Db → Db
released_db i lease item e db = record db {
  workers = settled_workers lease (find lease.worker_id db.workers) db.workers;
  leases = save (record lease { state = released }) db.leases;
  events = event_row db.events i item.correlation_id release_event e.now ∷ db.events;
}

finish_release_ok :
    (i : Key) (lease : ResourceLease) (e : Env) (db : Db) {db' : Db}
    → finish_release i lease e db ≡ ok (tt, db')
    → (item : WorkItem) × (find i db.works ≡ some item)
      × (is_terminal item.status ≡ true)
      × (db' ≡ released_db i lease item e db)
unfolding finish_release
finish_release_ok i lease e db {db'} h = elim (Option-cases (find i db.works)) [
  | inl missing ↦ absurd (ground arith)
  | inr (item, there) ↦
      let settled : Db = record db {
        workers = settled_workers lease (find lease.worker_id db.workers) db.workers;
        leases = save (record lease { state = released }) db.leases;
      } in
      let known = settle_lease-db lease (find lease.worker_id db.workers) e db in
      let told = emit_event_found i release_event e settled there in
      (item, there, ground arith, ground (arith, known, told))
]

-- The lease that a release settled, the work item that it was for, and the database after it.
pub record Released (seen : Db) (work_item_id token : Key) (lease_seconds : ℕ) (e : Env)
    (db db' : Db) : Type 0 where
  pub lease : ResourceLease
  pub item : WorkItem
  pub db1 : Db
  pub validated : Validated seen work_item_id token lease_seconds e db lease db1
  pub of_item : find work_item_id db.works ≡ some item
  pub terminal : is_terminal item.status ≡ true
  pub database : db' ≡ record (released_db work_item_id lease item e db) {
    leases = save (record lease { state = released }) db.leases;
  }

-- A release needs a valid token and terminal work; it gives the lease's resources back to its
-- worker, marks the lease released, records the event and changes nothing else.
pub release_ok :
    (seen : Db) (work_item_id token : Key) (lease_seconds : ℕ) (e : Env) (db : Db) {db' : Db}
    → release_run seen work_item_id (some token) lease_seconds e db ≡ ok (tt, db')
    → Released seen work_item_id token lease_seconds e db db'
unfolding release_run
release_ok seen i token s e db {db'} h =
    elim (Result-cases (validate_lease seen i (some token) s e db)) [
      | inl (x, refused) ↦ absurd (ground arith)
      | inr ((lease, db1), valid) ↦
          let v = validate_ok seen i s e db token valid in
          let tail : finish_release i lease e (record db { leases = save lease db.leases })
              ≡ ok (tt, db') =
            ground (arith, v.database) in
          let done =
            finish_release_ok i lease e (record db { leases = save lease db.leases }) {db' = db'}
              tail in
          record {
            lease = lease;
            item = done.0;
            db1 = db1;
            validated = v;
            of_item = done.1;
            terminal = done.2;
            database =
                rw (← save-save (record lease { state = released }) lease db.leases refl) done.3;
          }
    ]
