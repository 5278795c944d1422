-- ===== src/Quarantine/Loops.antt =====
-- What the loops of `quarantine_worker` do to the leases, and what they leave alone.
use dev_agent.Base.{
  ◌≡◌, refl, sym, subst, Key, some, false, List, [], ◌∷◌, arith, nat_beq, nat_eq, contains,
  Option-cases, Bool-cases, inl, inr, ◌⊎◌, String,
}
use dev_agent.Base.Table.{find, save, find-save, find-key}
use dev_agent.Models.{
  Db, WorkItem, ResourceLease, quarantined, lease_keyed, worker_keyed, work_keyed, credential_keyed,
}
use dev_agent.Credentials.{record_event}
use dev_agent.Leases.{is_terminal}
use dev_agent.Service.{transition_work_item, emit_event}
use dev_agent.Service.Transition.{transition_ok, moved_db}
use dev_agent.Quarantine.{
  fence_lease, revoke_one, stop_work, stop_change, quarantine_work, close_outlets,
}
use dev_agent.Tx.{Env, ok, for_each, Result-cases}

-- What a loop that fences leases leaves of each lease.
module _ (e : Env) where
  pub fence_lease_ok :
      (i : Key) (db db' : Db)
      → fence_lease i e db ≡ ok (tt, db')
      → (l : ResourceLease) × (find i db.leases ≡ some l)
        × (db' ≡ record db {
          leases = save (record l { state = quarantined; expires_at = e.now }) db.leases;
        })
  unfolding fence_lease
  fence_lease_ok i db db' h = elim (Option-cases (find i db.leases)) [
    | inl missing ↦ absurd (ground arith)
    | inr (l, found) ↦ (l, found, ground arith)
  ]

  -- Every lease is the one from before, or a fenced one; those of the loop's keys are fenced.
  pub fence_leases_ok :
      (keys : List Key) (db db' : Db)
      → for_each keys fence_lease e db ≡ ok (tt, db')
      → (i : Key) (l : ResourceLease) → find i db'.leases ≡ some l
      → (l.state ≡ quarantined) ⊎ ((contains i keys ≡ false) × (find i db.leases ≡ some l))
  unfolding for_each
  fence_leases_ok [] db db' h i l f = inr (refl, ground arith)
  fence_leases_ok (k ∷ keys) db db' h i l f = elim (Result-cases (fence_lease k e db)) [
    | inl bad ↦ absurd (ground arith)
    | inr ((x, db1), good) ↦
        let r = fence_lease_ok k db db1 good in
        let rest : for_each keys fence_lease e db1 ≡ ok (tt, db') = ground arith in
        let fenced : ResourceLease = record (r.0) { state = quarantined; expires_at = e.now } in
        elim (fence_leases_ok keys db1 db' rest i l f) [
          | inl done ↦ inl done
          | inr (out, same) ↦
              let saved : find i (save fenced db.leases) ≡ some l =
                subst (λ d. find i d.leases ≡ some l) r.2 same in
              elim (Bool-cases (nat_beq k i)) [
                | inl hit ↦
                    inl (ground (arith, find-key k r.0 db.leases r.1, find-save i fenced db.leases))
                | inr miss ↦ inr (
                  ground arith,
                  ground (arith, find-key k r.0 db.leases r.1, find-save i fenced db.leases),
                )
              ]
        ]
  ]

-- The other loops leave the leases alone.
pub revoke_one_leases :
    (w : Key) (actor reason : String) (e : Env) (i : Key) (db db' : Db)
    → revoke_one w actor reason i e db ≡ ok (tt, db')
    → (db'.leases ≡ db.leases) × (db'.works ≡ db.works) × (db'.workers ≡ db.workers)
unfolding revoke_one record_event
revoke_one_leases w actor reason e i db db' h = elim (Option-cases (find i db.credentials)) [
  | inl missing ↦ absurd (ground arith)
  | inr (c, found) ↦ (ground arith, ground arith, ground arith)
]

stop_work_leases :
    (item : WorkItem) (e : Env) {old : WorkItem} (db db' : Db)
    → find item.id db.works ≡ some old
    → stop_work item e db ≡ ok (tt, db')
    → (db'.leases ≡ db.leases) × (db'.workers ≡ db.workers)
unfolding stop_work moved_db
stop_work_leases item e db db' there h = elim (Bool-cases (is_terminal item.status)) [
  | inl over ↦ (ground arith, ground arith)
  | inr live ↦ elim (Result-cases (transition_work_item item (stop_change item) e db)) [
    | inl bad ↦ absurd (ground arith)
    | inr ((w, db1), good) ↦
        let m = transition_ok item (stop_change item) e db there good in
        (ground (arith, m.database), ground (arith, m.database))
  ]
]

pub quarantine_work_leases :
    (w : Key) (e : Env) (i : Key) (db db' : Db)
    → quarantine_work w i e db ≡ ok (tt, db')
    → (db'.leases ≡ db.leases) × (db'.workers ≡ db.workers)
unfolding quarantine_work close_outlets emit_event
quarantine_work_leases w e i db db' h = elim (Option-cases (find i db.works)) [
  | inl missing ↦ absurd (ground arith)
  | inr (item, found) ↦
      let closed : Db = close_outlets i e.now db in
      elim (Result-cases (stop_work item e closed)) [
        | inl bad ↦ absurd (ground arith)
        | inr ((x, db1), good) ↦
            let own : item.id ≡ i = find-key i item db.works found in
            let s =
              stop_work_leases item e closed db1
                (subst (λ k. find k db.works ≡ some item) (sym own) found) good in
            (ground (arith, s.0), ground (arith, s.1))
      ]
]
