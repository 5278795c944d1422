-- ===== src/Delivery/Guard.antt =====
-- What the guard of an external write shows (`guard_delivery_write` of apps/api/app/delivery.py).
use dev_agent.Base.{
  ℕ, ◌≡◌, Key, true, some, arith, inl, inr, Option-cases, Bool-cases, Bool, nat_beq, nat_eq,
}
use dev_agent.Base.Table.{find, find-key}
use dev_agent.Models.{
  Db, WorkItem, DeliveryJob, DeliveryBundle, AuditRecord, audit_keyed, bundle_keyed,
}
use dev_agent.DeliveryAudit.{DeliveryAuthority, delivery_authority, authority_of, is_approval_of}
use dev_agent.Tx.{Env, ok, Result-cases}
use dev_agent.Delivery.{lock_delivery, guard_delivery_write, is_running}
use dev_agent.Delivery.Run.{Write}
use dev_agent.Delivery.Lock.{Locked, lock_ok}

-- The delivery is running, its worker in service, and the job's approval is the audit record `a`: a
-- person's approval of this work and of the bundle on file.
pub record Permitted (is_digest : Key → Bool) (i : Key) (a : ℕ) (db : Db) : Type 0 where
  pub work : WorkItem
  pub job : DeliveryJob
  pub locked : Locked i is_running db work job
  pub row : AuditRecord
  pub approval : job.approval_audit_id ≡ some a
  pub found_row : find a db.audits ≡ some row
  pub bundle : DeliveryBundle
  pub found_bundle : find i db.bundles ≡ some bundle
  pub approves : is_approval_of is_digest work bundle row ≡ true

-- A write that is started under the locks of such a state.
abbrev pub PermittedWrite : (is_digest : Key → Bool) → Key → ℕ → Write → Type 0
PermittedWrite is_digest i a w = (db : Db) × (w.under ≡ some db) × Permitted is_digest i a db

module _ (is_digest : Key → Bool) (i : Key) (work : WorkItem) (job : DeliveryJob) (db : Db) where
  pub record Approved (auth : DeliveryAuthority) : Type 0 where
    pub row : AuditRecord
    pub approval : job.approval_audit_id ≡ some auth.audit_id
    pub found_row : find auth.audit_id db.audits ≡ some row
    pub bundle : DeliveryBundle
    pub found_bundle : find i db.bundles ≡ some bundle
    pub digest : auth.bundle_sha256 ≡ bundle.sha256
    pub version : auth.work_version ≡ work.version
    pub approves : is_approval_of is_digest work bundle row ≡ true

  pub authority-Approved :
      {auth : DeliveryAuthority}
      → delivery_authority is_digest work job (find i db.bundles) db ≡ ok auth
      → Approved auth
  unfolding delivery_authority authority_of
  authority-Approved {auth} h = elim (Option-cases job.approval_audit_id) [
    | inl miss ↦ absurd (ground arith)
    | inr (n, named) ↦ elim (Option-cases (find n db.audits)) [
      | inl miss ↦ absurd (ground arith)
      | inr (row, at_row) ↦ elim (Option-cases (find i db.bundles)) [
        | inl miss ↦ absurd (ground arith)
        | inr (bundle, at_bundle) ↦ elim (Bool-cases (is_approval_of is_digest work bundle row)) [
          | inr miss ↦ absurd (ground arith)
          | inl good ↦
              let key : row.id ≡ n = find-key n row db.audits at_row in
              let id : auth.audit_id ≡ n = ground arith in
              record {
                row = row;
                approval = ground arith;
                found_row = rw id at_row;
                bundle = bundle;
                found_bundle = at_bundle;
                digest = ground arith;
                version = ground arith;
                approves = good;
              }
        ]
      ]
    ]
  ]

module _ (is_digest : Key → Bool) (seen : Db) (i : Key) (a : ℕ) (e : Env) (db : Db) where
  pub guard_ok :
      {db' : Db}
      → guard_delivery_write is_digest seen i a e db ≡ ok (tt, db')
      → Permitted is_digest i a db × (db' ≡ db)
  unfolding guard_delivery_write
  guard_ok {db'} h = elim (Result-cases (lock_delivery seen i is_running e db)) [
    | inl (x, miss) ↦ absurd (ground arith)
    | inr (((work, job), db1), good) ↦
        let l = lock_ok seen i is_running e db good in
        elim (Result-cases (delivery_authority is_digest work job (find i db.bundles) db)) [
          | inl (x, miss) ↦ absurd (ground (arith, l.1))
          | inr (auth, held) ↦ elim (Bool-cases (nat_beq auth.audit_id a)) [
            | inr miss ↦ absurd (ground (arith, l.1))
            | inl same ↦
                let p = authority-Approved is_digest i work job db held in
                let id : auth.audit_id ≡ a = ground arith in
                (
                  record {
                    work = work;
                    job = job;
                    locked = l.0;
                    row = p.row;
                    approval = ground arith;
                    found_row = ground arith;
                    bundle = p.bundle;
                    found_bundle = p.found_bundle;
                    approves = p.approves;
                  },
                  ground (arith, l.1),
                )
          ]
        ]
  ]
