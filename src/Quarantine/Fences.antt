-- ===== src/Quarantine/Fences.antt =====
-- The leases and the worker's row at `quarantine_worker` (apps/api/app/worker_quarantine.py).
use dev_agent.Base.{
  ◌≡◌, refl, sym, ap, subst, ◌∙◌, Key, some, true, false, List, [], arith, nat_eq, contains,
  Option-cases, Bool-cases, inl, inr, ◌⊎◌, is_some, String,
}
use dev_agent.Base.Table.{
  find, save, find-save_self, find-key, found_in_keys, keys_where, order_keys, contains-order_keys,
}
use dev_agent.Models.{
  Db, ResourceLease, WorkerHost, quarantined, is_active, lease_keyed, worker_keyed, work_keyed,
  credential_keyed,
}
use dev_agent.Credentials.{record_event, validate_audit, lock_worker}
use dev_agent.Quarantine.{
  fence_lease, held_lease, revoke_one, quarantine_work, isolate, quarantined_worker,
  live_credential, is_assigned, QuarantineResult, quarantine_worker,
}
use dev_agent.Tx.{for_each_keeps, Env, ok, for_each, Result-cases}
use dev_agent.Quarantine.Loops.{
  fence_lease_ok, fence_leases_ok, revoke_one_leases, quarantine_work_leases,
}

-- What is left of a worker's hold on the control plane.
pub record Fenced (i : Key) (e : Env) (db' : Db) : Type 0 where
  pub no_lease :
      (k : Key) (l : ResourceLease)
      → find k db'.leases ≡ some l
      → l.worker_id ≡ i
      → is_active l.state ≡ false
  pub row : WorkerHost
  pub found : find i db'.workers ≡ some row
  pub quarantined_at : row.quarantined_at ≡ some e.now

module _ (worker : WorkerHost) (actor reason : String) (e : Env) (db : Db) where
  fenced_or_free :
      (k : Key) (l : ResourceLease) (ls : List Key) (at : Db)
      → (l.state ≡ quarantined) ⊎ ((contains k ls ≡ false) × (find k at.leases ≡ some l))
      → l.worker_id ≡ worker.id
      → ls ≡ order_keys (keys_where (held_lease worker.id) at.leases)
      → is_active l.state ≡ false
  unfolding held_lease
  fenced_or_free k l ls at (inl fenced) own is = rw fenced refl
  fenced_or_free k l ls at (inr (out, found)) own is = elim (Bool-cases (is_active l.state)) [
    | inl live ↦
        let held : held_lease worker.id l ≡ true = ground arith in
        absurd (
          ground (
            arith,
            contains-order_keys k (keys_where (held_lease worker.id) at.leases),
            found_in_keys (held_lease worker.id) k l at.leases found held,
          ))
    | inr over ↦ over
  ]

  isolate_ok :
      {r : QuarantineResult} {db' : Db}
      → find worker.id db.workers ≡ some worker
      → isolate worker actor reason e db ≡ ok (r, db')
      → Fenced worker.id e db'
  unfolding isolate record_event quarantined_worker
  isolate_ok {r} {db'} there h =
      let i : Key = worker.id in
      let db0 : Db = record db { workers = save (quarantined_worker worker e.now) db.workers } in
      let cs : List Key = order_keys (keys_where (live_credential i) db0.credentials) in
      elim (Result-cases (for_each cs (revoke_one i actor reason) e db0)) [
        | inl bad ↦ absurd (ground arith)
        | inr ((x1, db1), g1) ↦
            let ls : List Key = order_keys (keys_where (held_lease i) db1.leases) in
            elim (Result-cases (for_each ls fence_lease e db1)) [
              | inl bad ↦ absurd (ground arith)
              | inr ((x2, db2), g2) ↦
                  let ws : List Key = order_keys (keys_where (is_assigned i) db2.works) in
                  elim (Result-cases (for_each ws (quarantine_work i) e db2)) [
                    | inl bad ↦ absurd (ground arith)
                    | inr ((x3, db3), g3) ↦
                        let keep1 =
                          for_each_keeps (λ d. d.workers) (revoke_one i actor reason) e
                            (λ k a b g. (revoke_one_leases i actor reason e k a b g).2) cs db0 db1
                            g1 in
                        let keep3 =
                          for_each_keeps (λ d. d.leases) (quarantine_work i) e
                            (λ k a b g. (quarantine_work_leases i e k a b g).0) ws db2 db3 g3 in
                        let keep2 =
                          for_each_keeps (λ d. d.workers) fence_lease e
                            (λ k a b g. ap (λ d. d.workers) (fence_lease_ok e k a b g).2) ls db1 db2
                            g2 in
                        let keep3' =
                          for_each_keeps (λ d. d.workers) (quarantine_work i) e
                            (λ k a b g. (quarantine_work_leases i e k a b g).1) ws db2 db3 g3 in
                        let kept : db'.workers ≡ db3.workers = ground arith in
                        let last : db'.leases ≡ db3.leases = ground arith in
                        record {
                          no_lease = λ k l f own.
                              fenced_or_free k l ls db1
                                (fence_leases_ok e ls db1 db2 g2 k l
                                  (subst (λ t. find k t ≡ some l) (last ∙ keep3) f))
                                own refl;
                          row = quarantined_worker worker e.now;
                          found =
                              subst (λ t. find worker.id t ≡ some (quarantined_worker worker e.now))
                                (sym (kept ∙ keep3' ∙ keep2 ∙ keep1))
                                (find-save_self (quarantined_worker worker e.now) db.workers there);
                          quarantined_at = refl;
                        }
                  ]
            ]
      ]

  pub isolate_new :
      {r : QuarantineResult} {db' : Db}
      → isolate worker actor reason e db ≡ ok (r, db')
      → r.already_quarantined ≡ false
  unfolding isolate record_event
  isolate_new {r} {db'} h = ground arith

module _ (i : Key) (actor reason : String) (e : Env) (db : Db) where
  -- After a quarantine that was not a repetition, no lease of the worker is active, and the worker
  -- is marked as quarantined at the request's time.
  pub quarantine-Fenced :
      {r : QuarantineResult} {db' : Db}
      → quarantine_worker i actor reason e db ≡ ok (r, db')
      → r.already_quarantined ≡ false
      → Fenced i e db'
  unfolding quarantine_worker validate_audit lock_worker
  quarantine-Fenced {r} {db'} h new = elim (Option-cases (find i db.workers)) [
    | inl missing ↦ absurd (ground arith)
    | inr (w, found) ↦
        let own : w.id ≡ i = find-key i w db.workers found in
        let there : find w.id db.workers ≡ some w =
          subst (λ k. find k db.workers ≡ some w) (sym own) found in
        let done : isolate w actor reason e db ≡ ok (r, db') = ground arith in
        subst (λ k. Fenced k e db') own (isolate_ok w actor reason e db there done)
  ]

  quarantined_is_done :
      (w : WorkerHost) (e' : Env) (at : Db)
      → validate_audit actor reason e' at ≡ ok (tt, at)
      → find i at.workers ≡ some w
      → is_some w.quarantined_at ≡ true
      → quarantine_worker i actor reason e' at
        ≡ ok (
          record {
            worker_id = i;
            already_quarantined = true;
            revoked_credentials = 0;
            invalidated_leases = 0;
            affected_work_ids = [];
          },
          at,
        )
  unfolding quarantine_worker lock_worker
  quarantined_is_done w e' at valid found gone = ground (arith, find-key i w at.workers found)

  -- A second quarantine of the same worker, at any later time, says so and changes nothing.
  pub quarantine_again :
      {r : QuarantineResult} {db' : Db}
      → quarantine_worker i actor reason e db ≡ ok (r, db')
      → (e' : Env)
      → (again : QuarantineResult) × (again.already_quarantined ≡ true)
        × (quarantine_worker i actor reason e' db' ≡ ok (again, db'))
  unfolding quarantine_worker validate_audit lock_worker
  quarantine_again {r} {db'} h e' = elim (Bool-cases r.already_quarantined) [
    | inl old ↦ (
      record {
        worker_id = i;
        already_quarantined = true;
        revoked_credentials = 0;
        invalidated_leases = 0;
        affected_work_ids = [];
      },
      refl,
      elim (Option-cases (find i db.workers)) [
        | inl missing ↦ absurd (ground arith)
        | inr (w, found) ↦ elim (Bool-cases (is_some w.quarantined_at)) [
          | inl gone ↦
              let same : db' ≡ db = ground arith in
              rw same (quarantined_is_done w e' db (ground arith) found gone)
          | inr free ↦
              let done : isolate w actor reason e db ≡ ok (r, db') = ground arith in
              absurd (ground (arith, isolate_new w actor reason e db done))
        ]
      ],
    )
    | inr new ↦
        let f = quarantine-Fenced h new in
        (
          record {
            worker_id = i;
            already_quarantined = true;
            revoked_credentials = 0;
            invalidated_leases = 0;
            affected_work_ids = [];
          },
          refl,
          quarantined_is_done f.row e' db' (ground arith) f.found (rw f.quarantined_at refl),
        )
  ]
