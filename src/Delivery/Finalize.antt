-- ===== src/Delivery/Finalize.antt =====
-- What the closing transactions of a delivery leave (`finalize_delivery`, `fail_delivery` of
-- apps/api/app/delivery.py).
use Prim.Native.String.{◌++◌}
use dev_agent.Base.{
  ◌≡◌, ◌≢◌, true, refl, Key, Option, none, some, String, arith, inl, inr, List, ◌∷◌, subst, sym,
}
use dev_agent.Base.Table.{find, save, find-save, find-key, find-save_self}
use dev_agent.Models.{
  Db, WorkItem, DeliveryJob, WorkStatus, committing, completed, failed, done, broken, pr_created,
  work_keyed, job_keyed, JobState, text, field, str, end,
}
use dev_agent.Service.{EventCreate, moved, transition_work_item, fits, transition_event}
use dev_agent.Service.Transition.{
  transition_ok, transition_total, moved_db, emit_event_found, event_row,
}
use dev_agent.Audit.{add_audit}
use dev_agent.DeliveryAudit.{record_delivery_audit}
use dev_agent.Tx.{Env, Error, ok, err, Result-cases}
use dev_agent.StateMachine.{ensure_transition}
use dev_agent.Delivery.{fail_delivery, complete_delivery, Report, by_delivery, failure_text}
use dev_agent.Delivery.Stages.{stage_text}

-- The rows of a delivery that is over.
pub record Settled (i : Key) (status : WorkStatus) (state : JobState) (url : Option Key) (db : Db)
    : Type 0 where
  pub work : WorkItem
  pub found_work : find i db.works ≡ some work
  pub work_status : work.status ≡ status
  pub work_url : work.pull_request_url ≡ url
  pub job : DeliveryJob
  pub found_job : find i db.jobs ≡ some job
  pub job_state : job.state ≡ state

abbrev failed_event : Report → String → EventCreate
failed_event r code = record {
  event_type = "delivery.failed";
  source = text "delivery:github";
  level = "error";
  message = failure_text r.stage code;
  payload = field "stage" (str (stage_text r.stage)) (field "error_code" (str code) end);
}

module _ (i : Key) (w : WorkItem) (j : DeliveryJob) (ws : List WorkItem) (js : List DeliveryJob)
    (db : Db) where
  closing :
      {old : WorkItem} {old_job : DeliveryJob}
      → w.id ≡ i
      → j.work_item_id ≡ i
      → find i ws ≡ some old
      → find i js ≡ some old_job
      → db.works ≡ save w ws
      → db.jobs ≡ save j js
      → Settled i w.status j.state w.pull_request_url db
  closing k l f g saved saved_job = record {
    work = w;
    found_work = ground (arith, find-save i w ws);
    work_status = refl;
    work_url = refl;
    job = j;
    found_job = ground (arith, find-save i j js);
    job_state = refl;
  }

module _ (i : Key) (work : WorkItem) (job : DeliveryJob) (r : Report) (code : String) (e : Env)
    (db : Db) where
  pub fail_delivery-Settled :
      {db' : Db}
      → find i db.works ≡ some work
      → find i db.jobs ≡ some job
      → fail_delivery work job r code e db ≡ ok (tt, db')
      → Settled i failed broken work.pull_request_url db'
  unfolding fail_delivery moved moved_db record_delivery_audit add_audit
  fail_delivery-Settled {db'} w j h =
      let key : work.id ≡ i = find-key i work db.works w in
      let job_key : job.work_item_id ≡ i = find-key i job db.jobs j in
      let there : find work.id db.works ≡ some work =
        subst (λ k. find k db.works ≡ some work) (sym key) w in
      let job' : DeliveryJob = record job {
        state = broken;
        error = some (failure_text r.stage code);
        updated_at = e.now;
      } in
      let c = by_delivery work failed "GitHub delivery failed" in
      let db1 : Db = record db { jobs = save job' db.jobs } in
      let told = emit_event_found work.id (failed_event r code) e db1 {item = work} there in
      let db2 : Db = record db1 {
        events =
            event_row db.events work.id work.correlation_id (failed_event r code) e.now ∷ db.events;
      } in
      elim (Result-cases (transition_work_item work c e db2)) [
        | inl (x, miss) ↦ absurd (ground arith)
        | inr ((work', db3), good) ↦
            let m = transition_ok work c e db2 {old = work} there good in
            let w' = moved work failed e.now in
            let closed : (db'.works ≡ save w' db.works) × (db'.jobs ≡ save job' db.jobs) =
              ground (arith, m.result, m.database) in
            closing i w' job' db.works db.jobs db' key job_key w j closed.0 closed.1
      ]

  -- A failure can always be recorded: the item is committing and at its own version, and the text of the
  -- change is short.
  pub fail_delivery-err :
      {x : Error}
      → find i db.works ≡ some work
      → work.status ≡ committing
      → fail_delivery work job r code e db ≢ err x
  unfolding fail_delivery record_delivery_audit add_audit ensure_transition fits transition_event
  fail_delivery-err {x} w s h =
      let key : work.id ≡ i = find-key i work db.works w in
      let there : find work.id db.works ≡ some work =
        subst (λ k. find k db.works ≡ some work) (sym key) w in
      let job' : DeliveryJob = record job {
        state = broken;
        error = some (failure_text r.stage code);
        updated_at = e.now;
      } in
      let c = by_delivery work failed "GitHub delivery failed" in
      let db1 : Db = record db { jobs = save job' db.jobs } in
      let told = emit_event_found work.id (failed_event r code) e db1 {item = work} there in
      let db2 : Db = record db1 {
        events =
            event_row db.events work.id work.correlation_id (failed_event r code) e.now ∷ db.events;
      } in
      let edge : ensure_transition work.status failed ≡ true = rw s refl in
      let moves : transition_work_item work c e db2
          ≡ ok (moved work failed e.now, moved_db work c e.now db2) =
        transition_total work c e db2 {old = work} there refl edge refl in
      ground (arith, told, moves)

module _ (spell : Key → String) (i : Key) (work : WorkItem) (job : DeliveryJob) (url : Key)
    (r : Report) (e : Env) (db : Db) where
  pub complete_delivery-Settled :
      {db' : Db}
      → find i db.works ≡ some work
      → find i db.jobs ≡ some job
      → complete_delivery spell work job url r e db ≡ ok (tt, db')
      → Settled i completed done (some url) db'
  unfolding complete_delivery moved moved_db record_delivery_audit add_audit
  complete_delivery-Settled {db'} w j h =
      let key : work.id ≡ i = find-key i work db.works w in
      let there : find work.id db.works ≡ some work =
        subst (λ k. find k db.works ≡ some work) (sym key) w in
      let w1 : WorkItem = record work { pull_request_url = some url } in
      let w2 = moved w1 pr_created e.now in
      let w3 = moved w2 completed e.now in
      let job' : DeliveryJob = record job { state = done; error = none } in
      let c = by_delivery w1 pr_created ("Pull request created: " ++ spell url) in
      let c2 = by_delivery w2 completed "Delivery completed" in
      let db1 : Db = record db { works = save w1 db.works } in
      let there1 : find w1.id db1.works ≡ some w1 = find-save_self w1 db.works there in
      elim (Result-cases (transition_work_item w1 c e db1)) [
        | inl (x, miss) ↦ absurd (ground arith)
        | inr ((a, db2), good) ↦
            let m = transition_ok w1 c e db1 {old = w1} there1 good in
            let db2' = moved_db w1 c e.now db1 in
            let there2 : find w2.id db2'.works ≡ some w2 = find-save_self w2 db1.works there1 in
            elim (Result-cases (transition_work_item w2 c2 e db2')) [
              | inl (x, miss) ↦ absurd (ground (arith, m.result, m.database))
              | inr ((b, db3), good2) ↦
                  let n = transition_ok w2 c2 e db2' {old = w2} there2 good2 in
                  let closed : (db'.works ≡ save w3 db2'.works) × (db'.jobs ≡ save job' db.jobs) =
                    ground (arith, m.result, m.database, n.result, n.database) in
                  closing i w3 job' db2'.works db.jobs db' key (find-key i job db.jobs j)
                    (subst (λ k. find k db2'.works ≡ some w2) key there2) j closed.0 closed.1
            ]
      ]
