-- ===== src/Delivery/Refusals.antt =====
-- The errors of the transactions of a delivery (apps/api/app/delivery.py, `_deliver_work`).
use dev_agent.Base.{
  ◌≡◌, ◌≢◌, refl, subst, Key, Bool, Option, none, some, String, arith, inl, inr, ◌+◌,
}
use dev_agent.Base.Table.{find, save}
use dev_agent.Models.{
  Db, WorkItem, DeliveryJob, DeliveryBundle, committing, running, job_keyed, work_keyed,
  bundle_keyed,
}
use dev_agent.Audit.{add_audit}
use dev_agent.DeliveryAudit.{
  DeliveryAuthority, delivery_authority, authority_of, record_delivery_audit,
}
use dev_agent.Tx.{Env, Error, ok, err, Result, Result-cases, delivery_stopped, delivery_error}
use dev_agent.Delivery.{
  Report, start_delivery, lock_delivery, fail_delivery, is_running, authorize_start, is_queued_job,
  first_report,
}
use dev_agent.Delivery.Lock.{lock_ok, lock_err}
use dev_agent.Delivery.Finalize.{fail_delivery-err}

module _ (i : Key) (t : Report) (e : Env) (db : Db) (seen : Db) (code : String) where
  -- The handler's transaction.
  abbrev pub failing_run : Result (Unit {0} × Db)
  failing_run = elim (lock_delivery seen i is_running e db) [
    | ok ((work, job), db1) ↦ fail_delivery work job t code e db1
    | err x ↦ err x
  ]

  -- It is refused where the delivery was stopped, and in no other way.
  pub fail_locked-err : (x : Error) → failing_run ≡ err x → x ≡ delivery_stopped
  fail_locked-err x h = elim (Result-cases (lock_delivery seen i is_running e db)) [
    | inl (y, miss) ↦ ground (arith, lock_err seen i is_running e db miss)
    | inr (((work, job), db1), good) ↦
        let l = lock_ok seen i is_running e db good in
        let same : fail_delivery work job t code e db ≡ err x = ground (arith, l.1) in
        absurd (fail_delivery-err i work job t code e db l.0.found_work l.0.in_delivery same)
  ]

module _ (is_digest : Key → Bool) (i : Key) (request_id : Key) (e : Env) where
  -- An authority is refused with a code.
  authority_err :
      (work : WorkItem) (job : DeliveryJob) (b : Option DeliveryBundle) (db : Db) {x : Error}
      → delivery_authority is_digest work job b db ≡ err x
      → (code : String) × (x ≡ delivery_error code)
  unfolding delivery_authority authority_of
  authority_err work job b db {x} h =
      elim x
          as (λ y.
            delivery_authority is_digest work job b db ≡ err y
            → (code : String) × (y ≡ delivery_error code)) [
              | delivery_error code ↦ λ k. (code, refl)
              | other ↦ λ k. absurd (ground arith)
            ]
        h

  authorize_err :
      (db : Db) (work : WorkItem) (job : DeliveryJob) (a : Result DeliveryAuthority) {x : Error}
      → find i db.works ≡ some work
      → work.status ≡ committing
      → ((y : Error) → a ≡ err y → (code : String) × (y ≡ delivery_error code))
      → authorize_start is_digest work job request_id a e db ≢ err x
  unfolding authorize_start record_delivery_audit add_audit
  authorize_err db work job (ok a) w s coded h = absurd (ground arith)
  authorize_err db work job (err y) {x} w s coded h =
      let c = coded y refl in
      let told = first_report request_id job.attempts none in
      let k : authorize_start is_digest work job request_id (err (delivery_error c.0)) e db
          ≡ err x =
        subst (λ z. authorize_start is_digest work job request_id (err z) e db ≡ err x) c.1 h in
      elim (Result-cases (fail_delivery work job told c.0 e db)) [
        | inl (z, miss) ↦ fail_delivery-err i work job told c.0 e db w s miss
        | inr ((u, db1), good) ↦ absurd (ground arith)
      ]

  -- The first transaction is refused where the delivery was stopped, and in no other way.
  pub start_err :
      (seen db : Db) (x : Error)
      → start_delivery is_digest seen i request_id e db ≡ err x
      → x ≡ delivery_stopped
  unfolding start_delivery
  start_err seen db x h = elim (Result-cases (lock_delivery seen i is_queued_job e db)) [
    | inl (y, miss) ↦ ground (arith, lock_err seen i is_queued_job e db miss)
    | inr (((work, job), db1), good) ↦
        let l = lock_ok seen i is_queued_job e db good in
        let job' : DeliveryJob = record job {
          state = running;
          attempts = job.attempts + 1;
          updated_at = e.now;
        } in
        let db2 : Db = record db { jobs = save job' db.jobs } in
        let a = delivery_authority is_digest work job' (find i db2.bundles) db2 in
        absurd (
          authorize_err db2 work job' a {x = x} l.0.found_work l.0.in_delivery
            (λ y k. authority_err work job' (find i db2.bundles) db2 k) (ground (arith, l.1)))
  ]
