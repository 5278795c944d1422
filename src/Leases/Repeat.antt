-- ===== src/Leases/Repeat.antt =====
-- A reconciliation that is asked for again (`reconcile_terminal_lease` of
-- apps/api/app/worker_leases.py).
use dev_agent.Base.{
  ℕ, suc, ◌≡◌, refl, sym, ap, inl, inr, Key, Bool, true, false, ◌&&◌, ◌∙◌, none, some, List, ◌∷◌,
  arith, nat_beq, length, holds, any, Bool-cases,
}
use dev_agent.Base.Table.{find, save}
use dev_agent.Base.Table.Rows.{first, first-holds, first-save}
use dev_agent.Models.{
  Db, AgentEvent, WorkItem, ResourceLease, WorkerHost, AuditRecord, released, is_active,
  is_released, work_keyed, lease_keyed, worker_keyed, job_keyed,
}
use dev_agent.Leases.{is_terminal, return_resources}
use dev_agent.Leases.Reconcile.{
  reconcile_terminal_lease, ReconciliationRequest, is_owned, is_reconcilable, delivery_is_over,
  records_reconciliation, reconciliation_audit, reconciliation_event,
}
use dev_agent.Service.Transition.{event_row}
use dev_agent.Leases.Settled.{reconcile_ok}
use dev_agent.Tx.{Env, ok}

module _ (worker : WorkerHost) (lease_id : Key) (payload : ReconciliationRequest) (e : Env)
    (db : Db) where
  -- A released lease whose reconciliation is on record.
  recorded_again :
      (lease : ResourceLease) (item : WorkItem)
      → worker.quarantined_at ≡ none
      → first (is_owned worker lease_id) db.leases ≡ some lease
      → find lease.work_item_id db.works ≡ some item
      → holds worker.id item.assigned_worker_id ≡ true
      → item.id ≡ payload.work_item_id
      → item.version ≡ payload.expected_version
      → is_terminal item.status ≡ true
      → lease.state ≡ released
      → delivery_is_over (find item.id db.jobs) ≡ true
      → any (records_reconciliation item lease) db.audits ≡ true
      → reconcile_terminal_lease worker lease_id payload e db ≡ ok (tt, db)
  unfolding reconcile_terminal_lease
  recorded_again lease item q o w a n v t s j r = ground arith

is_owned_key : (w : WorkerHost) (i : Key) (l : ResourceLease) → is_owned w i l ≡ true → l.id ≡ i
unfolding is_owned
is_owned_key w i l h = ground arith

is_owned_same : (v w : WorkerHost) (i : Key) → v.id ≡ w.id → is_owned v i ≡ is_owned w i
unfolding is_owned
is_owned_same v w i same =
    ap (λ k (l : ResourceLease). nat_beq l.id i && nat_beq l.worker_id k) same

released_is_owned :
    (w : WorkerHost) (i : Key) (l : ResourceLease)
    → is_owned w i l ≡ true
    → is_owned w i (record l { state = released }) ≡ true
unfolding is_owned
released_is_owned w i l h = h

audit_is_recorded :
    (worker : WorkerHost) (lease : ResourceLease) (item : WorkItem) (request n now : ℕ)
    → records_reconciliation item
        (record lease { state = released })
        (reconciliation_audit worker lease item request n now)
      ≡ true
unfolding records_reconciliation reconciliation_audit
audit_is_recorded worker lease item request n now = ground arith

recorded_like :
    (item : WorkItem) (lease : ResourceLease)
    → records_reconciliation item (record lease { state = released })
      ≡ records_reconciliation item lease
unfolding records_reconciliation
recorded_like item lease = refl

any_head {ℓ} :
    {A : Type ℓ} (p : A → Bool) (a : A) (rest : List A) → p a ≡ true → any p (a ∷ rest) ≡ true
any_head p a rest h = rw h refl

is_released_state : (l : ResourceLease) → is_released l.state ≡ true → l.state ≡ released
is_released_state l h = ground arith

not_active_state :
    (l : ResourceLease)
    → is_reconcilable l.state ≡ true
    → is_active l.state ≡ false
    → l.state ≡ released
not_active_state l h n = ground arith

module _ (worker again : WorkerHost) (lease_id : Key) (payload : ReconciliationRequest) (e e' : Env)
    (db : Db) (same : again.id ≡ worker.id) (free : again.quarantined_at ≡ none) where
  -- The two outcomes of the first settlement: the lease was still active, or already released.
  repeat_live :
      (r : ResourceLease) (item : WorkItem)
      → first (is_owned worker lease_id) db.leases ≡ some r
      → find r.work_item_id db.works ≡ some item
      → holds again.id item.assigned_worker_id ≡ true
      → item.id ≡ payload.work_item_id
      → item.version ≡ payload.expected_version
      → is_terminal item.status ≡ true
      → delivery_is_over (find item.id db.jobs) ≡ true
      → is_active r.state ≡ true
      → (events : List AgentEvent)
      → let paid : Db = record db {
        workers = save (return_resources worker r) db.workers;
        leases = save (record r { state = released }) db.leases;
        audits =
            reconciliation_audit worker r item e.request_id (suc (length db.audits)) e.now
            ∷ db.audits;
        events = events;
      } in
        reconcile_terminal_lease again lease_id payload e' paid ≡ ok (tt, paid)
  repeat_live r item owned there a n v t j live events =
      let mine : is_owned worker lease_id r ≡ true =
        first-holds (is_owned worker lease_id) r db.leases owned in
      let kept : first (is_owned again lease_id) (save (record r { state = released }) db.leases)
          ≡ some (record r { state = released }) =
        rw (is_owned_same again worker lease_id same) (
          first-save (is_owned worker lease_id) (record r { state = released }) r db.leases
            (λ x h. is_owned_key worker lease_id x h ∙ sym (is_owned_key worker lease_id r mine))
            (released_is_owned worker lease_id r mine) owned) in
      let paid : Db = record db {
        workers = save (return_resources worker r) db.workers;
        leases = save (record r { state = released }) db.leases;
        audits =
            reconciliation_audit worker r item e.request_id (suc (length db.audits)) e.now
            ∷ db.audits;
        events = events;
      } in
      recorded_again again lease_id payload e' paid (record r { state = released }) item free kept
        there a n v t refl j
        (any_head (records_reconciliation item (record r { state = released }))
          (reconciliation_audit worker r item e.request_id (suc (length db.audits)) e.now) db.audits
          (audit_is_recorded worker r item e.request_id (suc (length db.audits)) e.now))

  -- Once a reconciliation has returned, the same request of the same worker returns again, at any
  -- later time, and leaves the database as it is: resources are given back once, and the audit
  -- record and the event are not repeated.
  pub reconcile_twice :
      {db' : Db}
      → reconcile_terminal_lease worker lease_id payload e db ≡ ok (tt, db')
      → reconcile_terminal_lease again lease_id payload e' db' ≡ ok (tt, db')
  unfolding records_reconciliation reconciliation_audit
  reconcile_twice {db'} h =
      let r = reconcile_ok worker lease_id payload e db h in
      let lease : ResourceLease = r.lease in
      let item : WorkItem = r.item in
      let assigned : holds again.id item.assigned_worker_id ≡ true = rw same r.assigned in
      let owned : first (is_owned again lease_id) db.leases ≡ some lease =
        rw (is_owned_same again worker lease_id same) r.owned in
      elim r.outcome [
        | inl (recorded, over, unchanged) ↦ rw unchanged (
            recorded_again again lease_id payload e' db lease item free owned r.of_item assigned
              r.named r.version r.terminal (is_released_state lease over) r.over recorded)
        | inr (_, settled) ↦ elim (Bool-cases (is_active lease.state)) [
          | inl live ↦
              let events : List AgentEvent =
                event_row db.events item.id item.correlation_id (reconciliation_event worker lease)
                  e.now
                ∷ db.events in
              let now_on : Db = record db {
                workers = save (return_resources worker lease) db.workers;
                leases = save (record lease { state = released }) db.leases;
                audits =
                    reconciliation_audit worker lease item e.request_id (suc (length db.audits))
                      e.now
                    ∷ db.audits;
                events = events;
              } in
              let changed : db' ≡ now_on = ground (arith, settled) in
              rw changed (
                repeat_live lease item r.owned r.of_item assigned r.named r.version r.terminal
                  r.over live events)
          | inr over ↦
              let a : AuditRecord =
                reconciliation_audit worker lease item e.request_id (suc (length db.audits))
                  e.now in
              let now_on : Db = record db { audits = a ∷ db.audits } in
              let changed : db' ≡ now_on = ground (arith, settled) in
              rw changed (
                recorded_again again lease_id payload e' now_on lease item free owned r.of_item
                  assigned r.named r.version r.terminal (not_active_state lease r.reconcilable over)
                  r.over
                  (any_head (records_reconciliation item lease) a db.audits (
                    audit_is_recorded worker lease item e.request_id (suc (length db.audits))
                      e.now)))
        ]
      ]
