-- ===== src/Delivery/Recovery.antt =====
-- Deliveries after a restart, and one at a time (`_exclusive_delivery`, `resume_pending_deliveries` of
-- apps/api/app/delivery.py).
use dev_agent.Base.{
  Key, Bool, true, false, Option, none, some, if◌then◌else◌, List, contains, nat_eq,
}
use dev_agent.Base.Table.{keys_where}
use dev_agent.Models.{Db, JobState, pending, retry, running, delivery_interrupted, job_keyed}
use dev_agent.DeliveryAudit.{DeliveryAuthority, record_delivery_audit}
use dev_agent.Delivery.{lock_delivery, is_running, save_running, authority_now, attempt_of}
use dev_agent.Delivery.Publish.{Ending, deliver_work}
use dev_agent.Delivery.Run.{Outside, Run, recovering}
use dev_agent.Delivery.Stages.{recovery}
use dev_agent.Tx.{Tx, Result, ok, err, pure, delivery_stopped, ◌>>=◌, ◌>>◌}

-- `("pending", "retry", "running")`
abbrev pub is_unfinished : JobState → Bool
is_unfinished pending = true
is_unfinished retry = true
is_unfinished running = true
is_unfinished _ = false

abbrev pub authority_or_none : Result DeliveryAuthority → Option DeliveryAuthority
authority_or_none (ok a) = some a
authority_or_none (err x) = none

-- The transaction of `_exclusive_delivery` after a restart.
unfoldable pub recover_delivery :
    (is_digest : Key → Bool) → Db → Key → (request_id : Key) → Tx (Unit {0})
unfolding lock_delivery
recover_delivery is_digest seen i request_id = do
  (work, job) ← lock_delivery seen i is_unfinished
  authority ← authority_now is_digest i work job
  let job' = record job { state = retry; error = some "control plane restarted during delivery" }
  if is_running job.state
      then (do
        save_running job'
        record_delivery_audit work job' (
            attempt_of delivery_interrupted
              (record {
                request_id = request_id;
                attempt = job.attempts;
                authority = authority_or_none authority;
                stage = recovery;
                publication = "unknown";
                pull_request_number = none;
              })
              (some "process_restarted"))
        pure tt)
      else pure tt

-- What `_exclusive_delivery` comes to. `busy` is a delivery that this process is at already.
pub data Exclusive : Type 0 where
  busy stopped_before failed_before : Db → Exclusive
  delivered : Ending → Run → Exclusive

abbrev recovered : Outside → Key → (request_id : Key) → Db → Result ((Unit {0}) × Db) → Exclusive
recovered o i request_id db (ok (u, db')) =
    let d = deliver_work o i request_id db' in delivered d.0 d.1
recovered o i request_id db (err x) = elim x [
  | delivery_stopped ↦ stopped_before db
  | other ↦ failed_before db
]

-- The reservation is taken before the first await; `active` is the set that holds it.
unfoldable pub exclusive_delivery :
    Outside
    → (active : List Key) → Key
    → (recover_running : Bool) → (first_id : Key) → (request_id : Key) → Db
    → Exclusive
unfolding recover_delivery deliver_work
exclusive_delivery o active i recover_running first_id request_id db =
    if contains i active
    then busy db
    else if recover_running
    then (let db' = o.meanwhile recovering db in
        recovered o i request_id db'
          (recover_delivery o.is_digest (o.seen recovering) i first_id (o.env recovering) db'))
    else (let d = deliver_work o i request_id db in delivered d.0 d.1)

-- The deliveries that `resume_pending_deliveries` starts again.
unfoldable pub resumed : Db → List Key
resumed db = keys_where (λ j. is_unfinished j.state) db.jobs
