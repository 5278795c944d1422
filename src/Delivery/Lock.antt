-- ===== src/Delivery/Lock.antt =====
-- What the locks of a delivery show (`lock_delivery`, `guard_delivery_write` of
-- apps/api/app/delivery.py).
use dev_agent.Base.{
  ◌≡◌, Key, true, Option, none, some, arith, holds, nat_eq, inl, inr, Option-cases, Bool-cases,
  Bool, ◌&&◌, and-true,
}
use dev_agent.Base.Table.{find}
use dev_agent.Models.{
  Db, WorkItem, WorkerHost, DeliveryJob, JobState, committing, status_beq, status_decides,
  work_keyed, worker_keyed, job_keyed, bundle_keyed,
}
use dev_agent.Tx.{Env, Error, ok, err}
use dev_agent.Delivery.{lock_delivery, owner_of}

-- The work is to be published by a worker in service, and its delivery is in one of the states.
pub record Locked (i : Key) (states : JobState → Bool) (db : Db) (work : WorkItem)
    (job : DeliveryJob) : Type 0 where
  pub worker : WorkerHost
  pub worker_id : Key
  pub found_worker : find worker_id db.workers ≡ some worker
  pub in_service : worker.quarantined_at ≡ none
  pub found_work : find i db.works ≡ some work
  pub found_job : find i db.jobs ≡ some job
  pub assigned : work.assigned_worker_id ≡ some worker_id
  pub in_delivery : work.status ≡ committing
  pub job_state : states job.state ≡ true

holds_some : (k : Key) (o : Option Key) → holds k o ≡ true → o ≡ some k
holds_some k none h = absurd (ground arith)
holds_some k (some j) h = ground arith

module _ (seen : Db) (i : Key) (states : JobState → Bool) (e : Env) (db : Db) where
  abbrev agrees : Key → WorkItem → DeliveryJob → Bool
  agrees w item row =
      holds w item.assigned_worker_id && status_beq item.status committing && states row.state

  Locked-rows :
      {work : WorkItem} {job : DeliveryJob} {db' : Db}
      → lock_delivery seen i states e db ≡ ok ((work, job), db')
      → (w : Key) (host : WorkerHost) (item : WorkItem) (row : DeliveryJob)
      → owner_of (find i seen.works) ≡ some w
      → find w db.workers ≡ some host
      → find i db.works ≡ some item
      → find i db.jobs ≡ some row
      → Locked i states db work job × (db' ≡ db)
  unfolding lock_delivery
  Locked-rows {work} {job} {db'} h w host item row owner at_host at_item at_row =
      elim (Option-cases host.quarantined_at) [
        | inr (t, bad) ↦ absurd (ground arith)
        | inl free ↦ elim (Bool-cases (agrees w item row)) [
          | inr miss ↦ absurd (ground arith)
          | inl fit ↦
              let outer = and-true _ _ fit in
              let inner = and-true _ _ outer.0 in
              let same : (item ≡ work) × (row ≡ job) × (db' ≡ db) = ground arith in
              (
                record {
                  worker = host;
                  worker_id = w;
                  found_worker = at_host;
                  in_service = free;
                  found_work = ground arith;
                  found_job = ground arith;
                  assigned = ground (arith, holds_some w item.assigned_worker_id inner.0);
                  in_delivery = ground (arith, status_decides item.status committing);
                  job_state = ground arith;
                },
                same.2,
              )
        ]
      ]

  pub lock_ok :
      {work : WorkItem} {job : DeliveryJob} {db' : Db}
      → lock_delivery seen i states e db ≡ ok ((work, job), db')
      → Locked i states db work job × (db' ≡ db)
  unfolding lock_delivery
  lock_ok {work} {job} {db'} h = elim (Option-cases (owner_of (find i seen.works))) [
    | inl miss ↦ absurd (ground arith)
    | inr (w, owner) ↦ elim (Option-cases (find w db.workers)) [
      | inl miss ↦ absurd (ground arith)
      | inr (host, at_host) ↦ elim (Option-cases (find i db.works)) [
        | inl miss ↦ absurd (ground arith)
        | inr (item, at_item) ↦ elim (Option-cases (find i db.jobs)) [
          | inl miss ↦ absurd (ground arith)
          | inr (row, at_row) ↦ Locked-rows h w host item row owner at_host at_item at_row
        ]
      ]
    ]
  ]

  -- The locks are refused in one way.
  pub lock_err : {x : Error} → lock_delivery seen i states e db ≡ err x → x ≡ Error.delivery_stopped
  unfolding lock_delivery
  lock_err {x} h = ground arith
