-- ===== src/DeliveryAudit/Approved.antt =====
-- The record that `record_approval_audit` (apps/api/app/audit.py) leaves, read by `delivery_authority`
-- (apps/api/app/delivery_audit.py).
use dev_agent.Base.{
  ℕ, suc, ◌≡◌, refl, Key, Time, Option, none, some, Bool, true, false, List, ◌∷◌, arith, nat_beq,
  length,
}
use dev_agent.Base.Table.{find, find-key, find-save}
use dev_agent.Models.{
  Db, WorkItem, AuditRecord, DeliveryJob, DeliveryBundle, Approval, approver, committing,
  pull_request, approve, approval_decided, row_number, pending, retry, done, JobState, get_field,
  is_runnable, audit_keyed, job_keyed, bundle_keyed, Transport, work_keyed,
}
use dev_agent.Audit.{is_human, may_approve, add_audit}
use dev_agent.Authorization.{Actor, RoleDecision}
use dev_agent.Approval.{
  ApprovalState, actor_audit, approval_details, queue_delivery, requeued, record_approval_audit,
  approved_bundle,
}
use dev_agent.Approval.Decide.{conclude}
use dev_agent.DeliveryAudit.{
  is_act_on, decides_delivery, decides_bundle, is_approval_of, authority_of, approval_row,
  delivery_authority,
}
use dev_agent.Tx.{Env, ok}

nat_beq_refl : (n : ℕ) → nat_beq n n ≡ true
nat_beq_refl n = ground arith

-- The record that an approval leaves is an approval of its item and its bundle.
audit-is_approval_of :
    (is_digest : Key → Bool) (item : WorkItem) (bundle : DeliveryBundle) (actor : Actor)
    (decision : RoleDecision) (approval : Approval) (before : ApprovalState) (t : Transport)
    (e : Env) (n : ℕ)
    → approval.kind ≡ pull_request
    → approval.decision ≡ approve
    → item.status ≡ committing
    → decision.required_role ≡ approver
    → may_approve (some decision.effective_role) ≡ true
    → is_human t ≡ true
    → is_digest bundle.sha256 ≡ true
    → is_approval_of is_digest item bundle (
        actor_audit item actor decision approval_decided
          (row_number approval.id)
          t
          (approval_details item approval before true (some bundle))
          e
          n
          e.now)
      ≡ true
unfolding is_approval_of is_act_on decides_delivery decides_bundle actor_audit approval_details
    get_field
audit-is_approval_of is_digest item bundle actor decision approval before t e n k d s r m h g =
    simp (k, d, s, r, m, h, g, nat_beq_refl)

abbrev is_open_state : JobState → Bool
is_open_state done = false
is_open_state _ = true

-- A job that a new approval queues again: any but a completed one.
abbrev pub is_open : Option DeliveryJob → Bool
is_open none = true
is_open (some j) = is_open_state j.state

requeued_job :
    (n : ℕ) (item : WorkItem) (now : Time) (db : Db) (o : Option DeliveryJob)
    → find item.id db.jobs ≡ o
    → is_open o ≡ true
    → (job : DeliveryJob) × (find item.id (requeued n o item.id now db).jobs ≡ some job)
      × (job.approval_audit_id ≡ some n)
      × (is_runnable job.state ≡ true)
      × ((requeued n o item.id now db).audits ≡ db.audits)
unfolding find
requeued_job n item now db none h again = (
  record {
    work_item_id = item.id;
    state = pending;
    approval_audit_id = some n;
    attempts = 0;
    error = none;
    created_at = now;
    updated_at = now;
  },
  ground arith,
  refl,
  refl,
  refl,
)
requeued_job n item now db (some j) h again =
    let j' : DeliveryJob = record j {
      state = retry;
      error = none;
      approval_audit_id = some n;
      updated_at = now;
    } in
    (
      j',
      ground (arith, find-key item.id j db.jobs h, find-save item.id j' db.jobs),
      refl,
      refl,
      ground arith,
    )

newest_row :
    (is_digest : Key → Bool) (job : DeliveryJob) (db : Db) (row : AuditRecord)
    (rest : List AuditRecord)
    → job.approval_audit_id ≡ some row.id
    → db.audits ≡ row ∷ rest
    → approval_row is_digest job db ≡ some row
unfolding find
newest_row is_digest job db row rest j a = rw j (rw a (rw (nat_beq_refl row.id) refl))

newest_authorizes :
    (is_digest : Key → Bool) (item : WorkItem) (job : DeliveryJob) (bundle : DeliveryBundle)
    (db : Db) (row : AuditRecord) (rest : List AuditRecord)
    → job.approval_audit_id ≡ some row.id
    → db.audits ≡ row ∷ rest
    → is_approval_of is_digest item bundle row ≡ true
    → delivery_authority is_digest item job (some bundle) db
      ≡ ok
          (record { audit_id = row.id; bundle_sha256 = bundle.sha256; work_version = item.version })
unfolding delivery_authority authority_of find
newest_authorizes is_digest item job bundle db row rest j a good =
    let named : approval_row is_digest job db ≡ some row =
      newest_row is_digest job db row rest j a in
    rw named (rw good refl)

module _ (is_digest : Key → Bool) (item : WorkItem) (bundle : DeliveryBundle) (actor : Actor)
    (decision : RoleDecision) (approval : Approval) (before : ApprovalState) (t : Transport)
    (e : Env) (db : Db) where
  -- The approval of a pull request concludes with a job in the queue, and the delivery of that job
  -- is authorized: by the audit record just written, for the bundle that was on file and for the
  -- version of the work item. (The item is committing, its bundle is on file with a well-formed
  -- digest, the decision was taken by a person with an approving role, and the item's delivery is
  -- not already completed.)
  pub conclude-delivery_authority :
      find item.id db.bundles ≡ some bundle
      → is_digest bundle.sha256 ≡ true
      → item.status ≡ committing
      → approval.kind ≡ pull_request
      → approval.decision ≡ approve
      → decision.required_role ≡ approver
      → may_approve (some decision.effective_role) ≡ true
      → is_human t ≡ true
      → is_open (find item.id db.jobs) ≡ true
      → (db' : Db) × (job : DeliveryJob) × (conclude item actor decision approval before t true e db
          ≡ ok (item, db'))
        × (find item.id db'.jobs ≡ some job)
        × (is_runnable job.state ≡ true)
        × (delivery_authority is_digest item job (some bundle) db'
            ≡ ok (record {
              audit_id = suc (length db.audits);
              bundle_sha256 = bundle.sha256;
              work_version = item.version;
            }))
  unfolding conclude record_approval_audit approved_bundle queue_delivery add_audit
  conclude-delivery_authority b g s k d r m h o =
      let n : ℕ = suc (length db.audits) in
      let row : AuditRecord =
        actor_audit item actor decision approval_decided (row_number approval.id) t
          (approval_details item approval before true (some bundle)) e n e.now in
      let db1 : Db = record db { audits = row ∷ db.audits } in
      let q = requeued_job n item e.now db1 (find item.id db.jobs) refl o in
      (
        requeued n (find item.id db.jobs) item.id e.now db1,
        q.0,
        ground arith,
        q.1,
        q.3,
        newest_authorizes is_digest item q.0 bundle
            (requeued n (find item.id db.jobs) item.id e.now db1) row db.audits q.2 q.4
            (audit-is_approval_of is_digest item bundle actor decision approval before t e n k d s r
              m h g),
      )
