-- ===== src/Quarantine/Works.antt =====
-- The works of a worker at `quarantine_worker` (apps/api/app/worker_quarantine.py).
use dev_agent.Base.{
  ◌≡◌, refl, sym, subst, ◌∙◌, Key, some, true, false, List, [], ◌∷◌, arith, nat_beq, nat_eq,
  contains, Option-cases, Bool-cases, inl, inr, ◌⊎◌, String, holds,
}
use dev_agent.Base.Table.{
  find, save, find-save, find-key, found_in_keys, keys_where, order_keys, contains-order_keys,
}
use dev_agent.Models.{
  Db, WorkItem, WorkerHost, WorkStatus, committing, pr_created, work_keyed, worker_keyed,
  lease_keyed, credential_keyed,
}
use dev_agent.Credentials.{record_event, validate_audit, lock_worker}
use dev_agent.Leases.{is_terminal}
use dev_agent.Service.{emit_event, moved, transition_work_item}
use dev_agent.Service.Transition.{transition_ok, moved_db}
use dev_agent.Quarantine.{
  stop_work, stop_change, stop_target, quarantine_work, close_outlets, isolate, quarantined_worker,
  live_credential, revoke_one, fence_lease, held_lease, is_assigned, QuarantineResult,
  quarantine_worker,
}
use dev_agent.Tx.{Env, ok, for_each, Result-cases}

stop_target_ends : (s : WorkStatus) → is_terminal (stop_target s) ≡ true
unfolding is_terminal
stop_target_ends committing = refl
stop_target_ends pr_created = refl
stop_target_ends _ = refl

-- The rows after a save under the key `k`.
after_save :
    (m item x : WorkItem) (j k : Key) (t : List WorkItem)
    → m.id ≡ k
    → find k t ≡ some item
    → find j (save m t) ≡ some x
    → (nat_beq j k ≡ true → m ≡ x) × (nat_beq j k ≡ false → find j t ≡ some x)
after_save m item x j k t own there f =
    (λ hit. ground (arith, find-save j m t), λ miss. ground (arith, find-save j m t))

same_row :
    (item x : WorkItem) (j k : Key) (t : List WorkItem)
    → nat_beq j k ≡ true
    → find k t ≡ some item
    → find j t ≡ some x
    → item ≡ x
same_row item x j k t hit there f = ground arith

module _ (e : Env) where
  -- What stopping a work item makes of the table: nothing, or the item's row is a terminal one.
  stop_work_works :
      (item : WorkItem) (k : Key) (db db' : Db)
      → find k db.works ≡ some item
      → stop_work item e db ≡ ok (tt, db')
      → ((is_terminal item.status ≡ true) × (db'.works ≡ db.works))
        ⊎ (db'.works ≡ save (moved item (stop_target item.status) e.now) db.works)
  unfolding stop_work moved_db
  stop_work_works item k db db' there h = elim (Bool-cases (is_terminal item.status)) [
    | inl over ↦ inl (over, ground arith)
    | inr live ↦ elim (Result-cases (transition_work_item item (stop_change item) e db)) [
      | inl bad ↦ absurd (ground arith)
      | inr ((w, db1), good) ↦
          let own : item.id ≡ k = find-key k item db.works there in
          let m =
            transition_ok item (stop_change item) e db
              (subst (λ j. find j db.works ≡ some item) (sym own) there) good in
          inr (ground (arith, m.database))
    ]
  ]

  quarantine_work_works :
      (w k : Key) (db db' : Db)
      → quarantine_work w k e db ≡ ok (tt, db')
      → (item : WorkItem) × (find k db.works ≡ some item)
        × (((is_terminal item.status ≡ true) × (db'.works ≡ db.works))
            ⊎ (db'.works ≡ save (moved item (stop_target item.status) e.now) db.works))
  unfolding quarantine_work close_outlets emit_event
  quarantine_work_works w k db db' h = elim (Option-cases (find k db.works)) [
    | inl missing ↦ absurd (ground arith)
    | inr (item, found) ↦
        let closed : Db = close_outlets k e.now db in
        elim (Result-cases (stop_work item e closed)) [
          | inl bad ↦ absurd (ground arith)
          | inr ((x, db1), good) ↦
              let kept : db'.works ≡ db1.works = ground arith in
              elim (stop_work_works item k closed db1 found good) [
                | inl (over, same) ↦ (item, found, inl (over, kept ∙ same))
                | inr saved ↦ (item, found, inr (kept ∙ saved))
              ]
        ]
  ]

  -- A row after one turn of the loop: the turn's own row is terminal, the others are as before.
  turn :
      (w k : Key) (db db' : Db)
      → quarantine_work w k e db ≡ ok (tt, db')
      → (j : Key) (x : WorkItem) → find j db'.works ≡ some x
      → (is_terminal x.status ≡ true) ⊎ ((nat_beq j k ≡ false) × (find j db.works ≡ some x))
  unfolding moved
  turn w k db db' h j x f =
      let q = quarantine_work_works w k db db' h in
      let item : WorkItem = q.0 in
      let own : item.id ≡ k = find-key k item db.works q.1 in
      elim q.2 [
        | inl (over, same) ↦
            let before : find j db.works ≡ some x = subst (λ t. find j t ≡ some x) same f in
            elim (Bool-cases (nat_beq j k)) [
              | inl hit ↦ inl (
                  subst (λ y. is_terminal y.status ≡ true)
                    (same_row item x j k db.works hit q.1 before) over)
              | inr miss ↦ inr (miss, before)
            ]
        | inr saved ↦
            let m : WorkItem = moved item (stop_target item.status) e.now in
            let a =
              after_save m item x j k db.works own q.1 (subst (λ t. find j t ≡ some x) saved f) in
            elim (Bool-cases (nat_beq j k)) [
              | inl hit ↦ inl (
                  subst (λ y. is_terminal y.status ≡ true) (a.0 hit) (stop_target_ends item.status))
              | inr miss ↦ inr (miss, a.1 miss)
            ]
      ]

  -- A row after the loop: it is terminal, or it is one from before and not of the loop's keys.
  turns :
      (w : Key) (keys : List Key) (db db' : Db)
      → for_each keys (quarantine_work w) e db ≡ ok (tt, db')
      → (j : Key) (x : WorkItem) → find j db'.works ≡ some x
      → (is_terminal x.status ≡ true) ⊎ ((contains j keys ≡ false) × (find j db.works ≡ some x))
  unfolding for_each
  turns w [] db db' h j x f = inr (refl, ground arith)
  turns w (k ∷ keys) db db' h j x f = elim (Result-cases (quarantine_work w k e db)) [
    | inl bad ↦ absurd (ground arith)
    | inr ((u, db1), good) ↦ elim (turns w keys db1 db' (ground arith) j x f) [
      | inl over ↦ inl over
      | inr (out, same) ↦ elim (turn w k db db1 good j x same) [
        | inl over ↦ inl over
        | inr (miss, before) ↦ inr (ground arith, before)
      ]
    ]
  ]

module _ (worker : WorkerHost) (actor reason : String) (e : Env) (db : Db) where
  -- The rows that the last loop is run on are all rows of the worker's.
  stopped_or_free :
      (w j : Key) (x : WorkItem) (at : Db)
      → (is_terminal x.status ≡ true)
        ⊎ ((contains j (order_keys (keys_where (is_assigned w) at.works)) ≡ false)
            × (find j at.works ≡ some x))
      → holds w x.assigned_worker_id ≡ true
      → is_terminal x.status ≡ true
  unfolding is_assigned
  stopped_or_free w j x at (inl over) own = over
  stopped_or_free w j x at (inr (out, found)) own = absurd (
      ground (
        arith,
        contains-order_keys j (keys_where (is_assigned w) at.works),
        found_in_keys (is_assigned w) j x at.works found own,
      ))

  isolate_stops :
      {r : QuarantineResult} {db' : Db}
      → isolate worker actor reason e db ≡ ok (r, db')
      → (j : Key) (x : WorkItem) → find j db'.works ≡ some x
      → holds worker.id x.assigned_worker_id ≡ true
      → is_terminal x.status ≡ true
  unfolding isolate record_event
  isolate_stops {r} {db'} h j x f own =
      let i : Key = worker.id in
      let db0 : Db = record db { workers = save (quarantined_worker worker e.now) db.workers } in
      let cs : List Key = order_keys (keys_where (live_credential i) db0.credentials) in
      elim (Result-cases (for_each cs (revoke_one i actor reason) e db0)) [
        | inl bad ↦ absurd (ground arith)
        | inr ((x1, db1), g1) ↦
            let ls : List Key = order_keys (keys_where (held_lease i) db1.leases) in
            elim (Result-cases (for_each ls fence_lease e db1)) [
              | inl bad ↦ absurd (ground arith)
              | inr ((x2, db2), g2) ↦
                  let ws : List Key = order_keys (keys_where (is_assigned i) db2.works) in
                  elim (Result-cases (for_each ws (quarantine_work i) e db2)) [
                    | inl bad ↦ absurd (ground arith)
                    | inr ((x3, db3), g3) ↦
                        let last : db'.works ≡ db3.works = ground arith in
                        stopped_or_free i j x db2
                          (turns e i ws db2 db3 g3 j x (subst (λ t. find j t ≡ some x) last f)) own
                  ]
            ]
      ]

-- After a quarantine that was not a repetition, every work item that is assigned to the worker is
-- completed, failed or cancelled.
pub quarantine_stops :
    (i : Key) (actor reason : String) (e : Env) (db : Db) {r : QuarantineResult} {db' : Db}
    → quarantine_worker i actor reason e db ≡ ok (r, db')
    → r.already_quarantined ≡ false
    → (j : Key) (x : WorkItem) → find j db'.works ≡ some x
    → holds i x.assigned_worker_id ≡ true
    → is_terminal x.status ≡ true
unfolding quarantine_worker validate_audit lock_worker
quarantine_stops i actor reason e db {r} {db'} h new j x f own =
    elim (Option-cases (find i db.workers)) [
      | inl missing ↦ absurd (ground arith)
      | inr (w, found) ↦
          let same : w.id ≡ i = find-key i w db.workers found in
          let done : isolate w actor reason e db ≡ ok (r, db') = ground arith in
          isolate_stops w actor reason e db done j x f
            (subst (λ k. holds k x.assigned_worker_id ≡ true) (sym same) own)
    ]
