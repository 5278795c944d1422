-- ===== src/WorkerTransitions/Publication.antt =====
-- The publication by a worker itself (`authorize_worker_transition` of
-- apps/api/app/worker_transitions.py).
use dev_agent.Base.{
  ◌≡◌, Key, ℕ, Option, some, none, true, false, arith, and-true, Option-cases, inl, inr, nat_beq,
  is_some, select, holds,
}
use dev_agent.Base.Table.{find}
use dev_agent.Models.{
  Db, WorkItem, WorkStatus, WorkerHost, AuditRecord, DeliveryJob, get_field, as_count, worker_keyed,
  job_keyed, Role, approver, is_text, is_bool, is_missing,
}
use dev_agent.Audit.{is_human, is_approver, may_approve}
use dev_agent.WorkerTransitions.{
  authorize_worker_transition, authorize_publication, is_publication, is_mock, is_mock_approval,
  approves_work, newest, version_fits,
}
use dev_agent.WorkerTransitions.Edges.{worker_edge}
use dev_agent.Tx.{Env, ok}

-- A worker that may publish: it is a mock, the item has no central delivery, and the newest decision on
-- its pull request is a person's, in a role that may approve, and approves this very run and version:
-- it took the work from awaiting approval to committing, with no delivery and no bundle.
pub record Publishes (item : WorkItem) (worker_id : Key) (db : Db) : Type 0 where
  pub worker : WorkerHost
  pub known : find worker_id db.workers ≡ some worker
  pub mock : is_mock worker ≡ true
  pub no_delivery : find item.id db.jobs ≡ none
  pub source : AuditRecord
  pub newest_approval : newest (select (approves_work item) db.audits) ≡ some source
  pub same_repository : source.repository ≡ item.repository
  pub same_run : source.correlation_id ≡ item.correlation_id
  pub by_human : is_human source.transport ≡ true
  pub required : source.required_role ≡ some approver
  pub permitted : may_approve source.effective_role ≡ true
  pub decision : is_text "approve" (get_field "decision" source.details) ≡ true
  pub not_queued : is_bool false (get_field "delivery_queued" source.details) ≡ true
  pub no_bundle : is_missing (get_field "delivery_bundle_sha256" source.details) ≡ true
  pub before : is_text "awaiting_approval" (get_field "work_status_before" source.details) ≡ true
  pub after : is_text "committing" (get_field "work_status_after" source.details) ≡ true
  pub of_version :
      version_fits item (as_count (get_field "work_version_after" source.details)) ≡ true

nat_beq-true : (m n : ℕ) → nat_beq m n ≡ true → m ≡ n
nat_beq-true m n h = ground arith

approver-role : (r : Option Role) → is_approver r ≡ true → r ≡ some approver
approver-role r h = ground arith

first_facts :
    (a : AuditRecord) (item : WorkItem)
    → is_mock_approval item a ≡ true
    → (a.repository ≡ item.repository)
      × (a.correlation_id ≡ item.correlation_id)
      × (is_human a.transport ≡ true)
      × (a.required_role ≡ some approver)
      × (may_approve a.effective_role ≡ true)
      × (is_text "approve" (get_field "decision" a.details) ≡ true)
      × (is_bool false (get_field "delivery_queued" a.details) ≡ true)
      × (is_missing (get_field "delivery_bundle_sha256" a.details) ≡ true)
      × (is_text "awaiting_approval" (get_field "work_status_before" a.details) ≡ true)
      × (is_text "committing" (get_field "work_status_after" a.details) ≡ true)
      × (version_fits item (as_count (get_field "work_version_after" a.details)) ≡ true)
unfolding is_mock_approval
first_facts a item h =
    let c1 = and-true _ _ h in
    let c2 = and-true _ _ c1.0 in
    let c3 = and-true _ _ c2.0 in
    let c4 = and-true _ _ c3.0 in
    let c5 = and-true _ _ c4.0 in
    let c6 = and-true _ _ c5.0 in
    let c7 = and-true _ _ c6.0 in
    let c8 = and-true _ _ c7.0 in
    let c9 = and-true _ _ c8.0 in
    let c10 = and-true _ _ c9.0 in
    (
      nat_beq-true _ _ c10.0,
      nat_beq-true _ _ c10.1,
      c9.1,
      approver-role a.required_role c8.1,
      c7.1,
      c6.1,
      c5.1,
      c4.1,
      c3.1,
      c2.1,
      c1.1,
    )

no_job : (o : Option DeliveryJob) → is_some o ≡ false → o ≡ none
no_job o h = ground arith

module _ (item : WorkItem) (target : WorkStatus) (worker_id : Key) (e : Env) (db : Db) where
  publication_ok :
      {db' : Db}
      → authorize_publication item worker_id e db ≡ ok (tt, db')
      → Publishes item worker_id db
  unfolding authorize_publication
  publication_ok {db'} h = elim (Option-cases (find worker_id db.workers)) [
    | inl missing ↦ absurd (ground arith)
    | inr (w, known) ↦ elim (Option-cases (newest (select (approves_work item) db.audits))) [
      | inl missing ↦ absurd (ground arith)
      | inr (a, source) ↦
          let good : is_mock_approval item a ≡ true = ground arith in
          let f = first_facts a item good in
          record {
            worker = w;
            known = known;
            mock = ground arith;
            no_delivery = no_job (find item.id db.jobs) (ground arith);
            source = a;
            newest_approval = source;
            same_repository = f.0;
            same_run = f.1;
            by_human = f.2;
            required = f.3;
            permitted = f.4;
            decision = f.5;
            not_queued = f.6;
            no_bundle = f.7;
            before = f.8;
            after = f.9;
            of_version = f.10;
          }
    ]
  ]

  -- A worker is let publish or complete a work item only if it is assigned to it, along an edge of its
  -- own, as a mock worker with no central delivery, and where the newest decision on its pull request is
  -- a person's, in a role that may approve, that approved this very run and version and took it from
  -- awaiting approval to committing.
  pub worker-Publishes :
      {db' : Db}
      → is_publication target ≡ true
      → authorize_worker_transition item target worker_id e db ≡ ok (tt, db')
      → (holds worker_id item.assigned_worker_id ≡ true)
        × (worker_edge item.status target ≡ true)
        × Publishes item worker_id db
  unfolding authorize_worker_transition
  worker-Publishes {db'} p h =
      let done : authorize_publication item worker_id e db ≡ ok (tt, db') = ground arith in
      (ground arith, ground arith, publication_ok done)
