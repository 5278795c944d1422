-- ===== src/Leases/Settled.antt =====
-- What `reconcile_terminal_lease` of apps/api/app/worker_leases.py asks for and writes.
use dev_agent.Base.{
  suc, ◌≡◌, ◌⊎◌, sym, subst, inl, inr, Key, true, false, none, some, ◌∷◌, arith, length, holds, any,
  Option-cases, Bool-cases, if◌then◌else◌,
}
use dev_agent.Base.Table.{find, save, find-key}
use dev_agent.Base.Table.Rows.{first}
use dev_agent.Models.{
  Db, WorkItem, ResourceLease, WorkerHost, AuditRecord, released, is_active, is_released,
  work_keyed, lease_keyed, worker_keyed, job_keyed,
}
use dev_agent.Leases.{is_terminal, return_resources}
use dev_agent.Leases.Reconcile.{
  reconcile_terminal_lease, ReconciliationRequest, settle, is_owned, is_reconcilable,
  delivery_is_over, records_reconciliation, reconciliation_audit, reconciliation_event,
}
use dev_agent.Service.Transition.{event_row, emit_event_found}
use dev_agent.Audit.{add_audit}
use dev_agent.Tx.{Env, ok}

module _ (worker : WorkerHost) (lease_id : Key) (payload : ReconciliationRequest) (e : Env)
    (db : Db) where
  abbrev pub new_audit : ResourceLease → WorkItem → AuditRecord
  new_audit lease item =
      reconciliation_audit worker lease item e.request_id (suc (length db.audits)) e.now

  -- The database after the first reconciliation of a lease.
  abbrev pub settled_db : ResourceLease → WorkItem → Db
  settled_db lease item =
      if is_active lease.state
      then record db {
        workers = save (return_resources worker lease) db.workers;
        leases = save (record lease { state = released }) db.leases;
        audits = new_audit lease item ∷ db.audits;
        events =
            event_row db.events item.id item.correlation_id (reconciliation_event worker lease)
              e.now
            ∷ db.events;
      }
      else record db { audits = new_audit lease item ∷ db.audits }

  settle-eq :
      (lease : ResourceLease) (item : WorkItem)
      → find item.id db.works ≡ some item
      → settle worker lease item e db ≡ ok (tt, settled_db lease item)
  unfolding settle add_audit
  settle-eq lease item there = elim (Bool-cases (is_active lease.state)) [
    | inl live ↦
        let paid : Db = record db {
          workers = save (return_resources worker lease) db.workers;
          leases = save (record lease { state = released }) db.leases;
          audits = new_audit lease item ∷ db.audits;
        } in
        ground (arith, emit_event_found item.id (reconciliation_event worker lease) e paid there)
    | inr over ↦ ground arith
  ]

  -- What a reconciliation that returned had found.
  pub record Reconciles (db' : Db) : Type 0 where
    pub lease : ResourceLease
    pub item : WorkItem
    pub not_quarantined : worker.quarantined_at ≡ none
    pub owned : first (is_owned worker lease_id) db.leases ≡ some lease
    pub of_item : find lease.work_item_id db.works ≡ some item
    pub assigned : holds worker.id item.assigned_worker_id ≡ true
    pub named : item.id ≡ payload.work_item_id
    pub version : item.version ≡ payload.expected_version
    pub terminal : is_terminal item.status ≡ true
    pub reconcilable : is_reconcilable lease.state ≡ true
    pub over : delivery_is_over (find item.id db.jobs) ≡ true
    pub outcome :
        ((any (records_reconciliation item lease) db.audits ≡ true)
          × (is_released lease.state ≡ true)
          × (db' ≡ db))
        ⊎ ((any (records_reconciliation item lease) db.audits ≡ false)
            × (db' ≡ settled_db lease item))

  -- A reconciliation is accepted only from a worker that is not quarantined, for its own lease of
  -- terminal work at the stated version whose delivery is over. The first one settles the lease;
  -- one that is on record changes nothing.
  pub reconcile_ok :
      {db' : Db}
      → reconcile_terminal_lease worker lease_id payload e db ≡ ok (tt, db')
      → Reconciles db'
  unfolding reconcile_terminal_lease
  reconcile_ok {db'} h = elim (Option-cases (first (is_owned worker lease_id) db.leases)) [
    | inl missing ↦ absurd (ground arith)
    | inr (lease, owned) ↦ elim (Option-cases (find lease.work_item_id db.works)) [
      | inl missing ↦ absurd (ground arith)
      | inr (item, there) ↦
          let own : item.id ≡ lease.work_item_id =
            find-key lease.work_item_id item db.works there in
          let settled =
            settle-eq lease item (subst (λ k. find k db.works ≡ some item) (sym own) there) in
          record {
            lease = lease;
            item = item;
            not_quarantined = ground arith;
            owned = owned;
            of_item = there;
            assigned = ground arith;
            named = ground arith;
            version = ground arith;
            terminal = ground arith;
            reconcilable = ground arith;
            over = ground arith;
            outcome = elim (Bool-cases (any (records_reconciliation item lease) db.audits)) [
              | inl old ↦ inl (old, ground arith, ground arith)
              | inr new ↦ inr (new, ground (arith, settled))
            ];
          }
    ]
  ]
