-- ===== src/Retention/Purge.antt =====
-- What stands before a file is removed (`expire_artifact` of apps/api/app/artifact_retention.py).
use dev_agent.Base.{
  ℕ, Key, Time, Bool, true, false, Option, none, some, List, ◌&&◌, not, nat_eq, leb, any, is_some,
  ◌≡◌, refl, sym, subst, arith, inl, inr, Bool-cases, and-true, max,
}
use dev_agent.Models.{Db, WorkItem, Artifact, work_keyed, job_keyed, artifact_keyed, console_keyed}
use dev_agent.Retention.{
  Files, Prepared, intended, already_purged, eligible, prepare_purge, confirm_purge, Between,
  Expiry, expire_artifact, record_purge, first_phase, second_phase,
}
use dev_agent.Retention.Records.{same_intents, intents, Intent}
use dev_agent.Retention.Group.{locked_group}
use dev_agent.Tx.{Env, Result, ok, err, Result-cases}
use dev_agent.Retention.Guards.{Guarded, locked_group_ok}

module _ (seen : Db) (identity : Key) (days : ℕ) (now : Time) (e : Env) (db : Db) where
  confirm_purge_ok :
      (expected : List Intent) {work : WorkItem} {row : Artifact} {rows : List Artifact} {db' : Db}
      → confirm_purge seen identity days now expected e db ≡ ok (some (work, row, rows), db')
      → Guarded now days work rows db
        × (any (λ r. not (is_some r.expired_at)) rows ≡ false)
        × (same_intents (intents rows) expected ≡ true)
        × (db' ≡ db)
  unfolding confirm_purge
  confirm_purge_ok expected {work} {row} {rows} {db'} h =
      elim (Result-cases (locked_group seen identity days now e db)) [
        | inl (x, miss) ↦ absurd (ground arith)
        | inr (((w, r, rs), db1), good) ↦
            let g = locked_group_ok seen identity days now e db good in
            elim (Bool-cases (is_some r.purged_at)) [
              | inl gone ↦ absurd (ground arith)
              | inr there ↦
                  let test =
                    not (any (λ r. not (is_some r.expired_at)) rs)
                    && same_intents (intents rs) expected in
                  elim (Bool-cases test) [
                    | inr miss ↦ absurd (ground arith)
                    | inl fit ↦
                        let both =
                          and-true (not (any (λ r. not (is_some r.expired_at)) rs))
                            (same_intents (intents rs) expected) fit in
                        let is : (w ≡ work) × (rs ≡ rows) × (db' ≡ db) = ground (arith, g.1) in
                        let expired : any (λ r. not (is_some r.expired_at)) rs ≡ false =
                          ground (arith, both.0) in
                        (
                          subst (λ z. Guarded now days z rows db) is.0
                              (subst (λ z. Guarded now days w z db) is.1 g.0),
                          subst (λ z. any (λ r. not (is_some r.expired_at)) z ≡ false) is.1 expired,
                          subst (λ z. same_intents (intents z) expected ≡ true) is.1 both.1,
                          is.2,
                        )
                  ]
            ]
      ]

module _ (files : Files) (b : Between) (identity : Key) (days : ℕ) (request_id : Key)
    (db : Db) where
  -- What preceded the removal of a file: under the locks of `under`, the first transaction had committed
  -- the intents of exactly these rows.
  pub record Purgeable (apply : Bool) (under : Db) (work : WorkItem) (rows : List Artifact)
      : Type 0 where
    pub applied : apply ≡ true
    pub committed : Db
    pub expected : List Intent
    pub recorded :
        prepare_purge files b.first_seen identity days apply b.started.now request_id b.started db
        ≡ ok (intended expected, committed)
    pub confirmed : same_intents (intents rows) expected ≡ true
    pub starts : under ≡ b.meanwhile committed
    pub guarded : Guarded b.started.now days work rows under
    pub expired : any (λ r. not (is_some r.expired_at)) rows ≡ false

  prepare_applied :
      (apply : Bool) {expected : List Intent} {db' : Db}
      → prepare_purge files b.first_seen identity days apply b.started.now request_id b.started db
        ≡ ok (intended expected, db')
      → apply ≡ true
  unfolding prepare_purge
  prepare_applied true h = refl
  prepare_applied false h =
      elim (Result-cases (locked_group b.first_seen identity days b.started.now b.started db)) [
        | inl (x, miss) ↦ absurd (ground arith)
        | inr (((w, r, rs), db1), good) ↦ absurd (ground arith)
      ]

  touched_second :
      (expected : List Intent) (d : Db) {under : Db} {work : WorkItem} {rows : List Artifact}
      → (r : Result (Option (WorkItem × Artifact × List Artifact) × Db))
      → (second_phase files b b.started.now request_id d r).touched ≡ some (under, work, rows)
      → (row : Artifact) × (r ≡ ok (some (work, row, rows), under))
  unfolding record_purge
  touched_second expected d (err x) t = absurd (ground arith)
  touched_second expected d (ok (none, db')) t = absurd (ground arith)
  touched_second expected d {under} {work} {rows} (ok (some (w, row, rs), db')) t =
      elim (Result-cases (files.purged row)) [
        | inl (x, bad) ↦ (row, ground arith)
        | inr (removed, good) ↦
            elim (Result-cases
              (record_purge w rs (max b.started.now b.finished.now) request_id b.finished db')) [
                | inl (x, bad) ↦ (row, ground arith)
                | inr (v, done_) ↦ (row, ground arith)
              ]
      ]

  abbrev first_result : Bool → Result (Prepared × Db)
  first_result apply =
      prepare_purge files b.first_seen identity days apply b.started.now request_id b.started db

  touched_first :
      (apply : Bool) (q : Prepared) (db1 : Db) {under : Db} {work : WorkItem} {rows : List Artifact}
      → first_result apply ≡ ok (q, db1)
      → (first_phase files b identity days b.started.now request_id db (ok (q, db1))).touched
        ≡ some (under, work, rows)
      → Purgeable apply under work rows
  touched_first apply already_purged db1 h t = absurd (ground arith)
  touched_first apply (eligible n) db1 h t = absurd (ground arith)
  touched_first apply (intended expected) db1 {under} {work} {rows} h t =
      let d = b.meanwhile db1 in
      let s =
        touched_second expected d
          (confirm_purge b.seen identity days b.started.now expected b.started d) t in
      let g = confirm_purge_ok b.seen identity days b.started.now b.started d expected s.1 in
      record {
        applied = prepare_applied apply h;
        committed = db1;
        expected = expected;
        recorded = h;
        confirmed = g.2;
        starts = g.3;
        guarded = subst (λ z. Guarded b.started.now days work rows z) (sym g.3) g.0;
        expired = g.1;
      }

  -- A file is removed only in a run that applies, after the first transaction has committed the expiry of
  -- its rows, and while, under the locks of the second, those rows are the ones that share the file, all
  -- expired, of one work item that is final and old, with no live lease, delivery or console.
  pub expire_artifact-Purgeable :
      (apply : Bool) {x : Expiry} {under : Db} {work : WorkItem} {rows : List Artifact}
      → expire_artifact files b identity days apply request_id db ≡ ok x
      → x.touched ≡ some (under, work, rows)
      → Purgeable apply under work rows
  unfolding expire_artifact
  expire_artifact-Purgeable apply {x} {under} {work} {rows} h t =
      elim (Bool-cases (leb 1 days && leb days 36500)) [
        | inr bad ↦ absurd (ground arith)
        | inl fine ↦
            let e : first_phase files b identity days b.started.now request_id db
                  (first_result apply)
                ≡ x =
              ground arith in
            let touched = subst (λ y. y.touched ≡ some (under, work, rows)) (sym e) t in
            elim (Result-cases (first_result apply)) [
              | inl (z, miss) ↦ absurd (ground arith)
              | inr ((q, db1), good) ↦ touched_first apply q db1 good (
                  subst
                    (λ z.
                      (first_phase files b identity days b.started.now request_id db z).touched
                      ≡ some (under, work, rows))
                    good touched)
            ]
      ]
