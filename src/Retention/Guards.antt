-- ===== src/Retention/Guards.antt =====
-- What the guards of a purge show (`locked_group` of apps/api/app/artifact_retention.py).
use dev_agent.Base.{
  ℕ, Key, Time, true, false, some, List, [], ◌∷◌, not, nat_beq, nat_eq, any, ◌≡◌, refl, subst,
  arith, inl, inr, Bool-cases, Option-cases,
}
use dev_agent.Base.Table.{find}
use dev_agent.Models.{Db, WorkItem, Artifact, work_keyed, job_keyed, artifact_keyed, console_keyed}
use dev_agent.Retention.Group.{
  owners, worker_of, lease_of, check_owner, is_settled_lease, is_final_work, is_final_job,
  is_recent, aliases, check_expired, check_aliases, check_work, check_group, locked_group, controls,
  same_owners,
}
use dev_agent.Tx.{Env, ok, Result-cases, for_each, for_each_keeps}

-- The work of the artifacts is at rest.
pub record AtRest (now : Time) (days : ℕ) (work : WorkItem) (db : Db) : Type 0 where
  pub settled : is_settled_lease (lease_of work.id db) ≡ true
  pub final : is_final_work work.status ≡ true
  pub old : is_recent now days work.updated_at ≡ false
  pub no_delivery : is_final_job (find work.id db.jobs) ≡ true
  pub no_console : controls now (find work.id db.consoles) ≡ false

module _ (now : Time) (days : ℕ) (e : Env) (db : Db) where
  check_work_ok :
      (work : WorkItem) {db' : Db}
      → check_work now days work e db ≡ ok (tt, db')
      → AtRest now days work db × (db' ≡ db)
  unfolding check_work
  check_work_ok work {db'} h = (
    record {
      settled = ground arith;
      final = ground arith;
      old = ground arith;
      no_delivery = ground arith;
      no_console = ground arith;
    },
    ground arith,
  )

  check_aliases_ok :
      (identity work : Key) (rows : List Artifact) {row : Artifact} {db' : Db}
      → check_aliases now days identity work rows e db ≡ ok (row, db')
      → (any (λ r. not (nat_beq r.work_item_id work)) rows ≡ false)
        × (any (λ r. is_recent now days r.created_at) rows ≡ false)
        × (db' ≡ db)
  unfolding check_aliases check_expired
  check_aliases_ok identity work [] h = absurd (ground arith)
  check_aliases_ok identity work (a ∷ rows) h = (ground arith, ground arith, ground arith)

-- What the locks and guards show of the rows `rows` with the file of an artifact of `work`.
pub record Guarded (now : Time) (days : ℕ) (work : WorkItem) (rows : List Artifact) (db : Db)
    : Type 0 where
  pub stored : (i : Key) × (find i db.works ≡ some work)
  pub shared : (key : Key) × (rows ≡ aliases key db)
  pub at_rest : AtRest now days work db
  pub own : any (λ r. not (nat_beq r.work_item_id work.id)) rows ≡ false
  pub old_rows : any (λ r. is_recent now days r.created_at) rows ≡ false

check_owner_same :
    (e : Env) (owner : Key) (db : Db) {db' : Db} → check_owner owner e db ≡ ok (tt, db') → db' ≡ db
unfolding check_owner
check_owner_same e owner db h = ground arith

check_owners_same :
    (e : Env) (os : List Key) (db : Db) {db' : Db}
    → for_each os check_owner e db ≡ ok (tt, db')
    → db' ≡ db
check_owners_same e os db {db'} h =
    for_each_keeps (λ d. d) check_owner e (λ o d d' k. check_owner_same e o d k) os db db' h

module _ (identity : Key) (days : ℕ) (now : Time) (e : Env) (db : Db) where
  listed_ok :
      (i key : Key) (w : WorkItem) {r : Artifact} {db' : Db}
      → find i db.works ≡ some w
      → AtRest now days w db
      → check_aliases now days identity w.id (aliases key db) e db ≡ ok (r, db')
      → Guarded now days w (aliases key db) db
  listed_ok i key w there rest h =
      let l = check_aliases_ok now days e db identity w.id (aliases key db) h in
      record {
        stored = (i, there);
        shared = (key, refl);
        at_rest = rest;
        own = l.0;
        old_rows = l.1;
      }

  check_group_ok :
      (i : Key) (initial : List Key) (key : Key) {work : WorkItem} {row : Artifact}
      {rows : List Artifact} {db' : Db}
      → check_group i initial key identity days now e db ≡ ok ((work, row, rows), db')
      → Guarded now days work rows db × (db' ≡ db)
  unfolding check_group
  check_group_ok i initial key {work} {row} {rows} {db'} h = elim (Option-cases (find i db.works)) [
    | inl miss ↦ absurd (ground arith)
    | inr (w, there) ↦
        let kept = same_owners (owners w.assigned_worker_id (worker_of (lease_of i db))) initial in
        elim (Bool-cases kept) [
          | inr miss ↦ absurd (ground arith)
          | inl hold ↦ elim (Result-cases (check_work now days w e db)) [
            | inl (x, miss) ↦ absurd (ground arith)
            | inr ((v, db2), resting) ↦
                let q = check_work_ok now days e db w resting in
                elim (Result-cases (check_aliases now days identity w.id (aliases key db) e db)) [
                  | inl (x, miss) ↦ absurd (ground (arith, q.1))
                  | inr ((r, db3), listed) ↦
                      let same =
                        (check_aliases_ok now days e db identity w.id (aliases key db) listed).2 in
                      let is : (w ≡ work) × (aliases key db ≡ rows) × (db' ≡ db) =
                        ground (arith, q.1, same) in
                      (
                        subst (λ z. Guarded now days z rows db) is.0
                            (subst (λ z. Guarded now days w z db) is.1
                              (listed_ok i key w there q.0 listed)),
                        is.2,
                      )
                ]
          ]
        ]
  ]

module _ (seen : Db) (identity : Key) (days : ℕ) (now : Time) (e : Env) (db : Db) where
  pub locked_group_ok :
      {work : WorkItem} {row : Artifact} {rows : List Artifact} {db' : Db}
      → locked_group seen identity days now e db ≡ ok ((work, row, rows), db')
      → Guarded now days work rows db × (db' ≡ db)
  unfolding locked_group
  locked_group_ok {work} {row} {rows} {db'} h = elim (Option-cases (find identity seen.artifacts)) [
    | inl miss ↦ absurd (ground arith)
    | inr (seed, at_seed) ↦ elim (Option-cases (find seed.work_item_id seen.works)) [
      | inl miss ↦ absurd (ground arith)
      | inr (before, at_before) ↦
          let initial = owners before.assigned_worker_id (worker_of (lease_of before.id seen)) in
          elim (Result-cases (for_each initial check_owner e db)) [
            | inl (x, miss) ↦ absurd (ground arith)
            | inr ((u, db1), checked) ↦
                let same = check_owners_same e initial db checked in
                check_group_ok identity days now e db before.id initial seed.object_key
                  {work = work} {row = row} {rows = rows} {db' = db'} (ground (arith, same))
          ]
    ]
  ]
