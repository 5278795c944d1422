-- ===== src/Accounts/Reconciled.antt =====
-- The accounts of the workers' resources at a reconciliation (apps/api/app/worker_leases.py).
use dev_agent.Base.{◌≡◌, refl, sym, subst, Key, some, true, arith, Bool-cases, inl, inr}
use dev_agent.Base.Table.{find, save}
use dev_agent.Base.Table.Rows.{IsUnique, first-holds, find-first}
use dev_agent.Models.{Db, ResourceLease, WorkerHost, released, is_active, lease_keyed, worker_keyed}
use dev_agent.Accounts.Keep.{IsBalanced, IsAccounted}
use dev_agent.Accounts.Settle.{settled-IsBalanced}
use dev_agent.Leases.{return_resources}
use dev_agent.Leases.Reconcile.{ReconciliationRequest, is_owned, reconcile_terminal_lease}
use dev_agent.Leases.Settled.{reconcile_ok}
use dev_agent.Tx.{Env, ok}

owned_worker :
    (w : WorkerHost) (i : Key) (l : ResourceLease) → is_owned w i l ≡ true → l.worker_id ≡ w.id
unfolding is_owned
owned_worker w i l h = ground arith

module _ (worker : WorkerHost) (lease_id : Key) (payload : ReconciliationRequest) (e : Env)
    (db : Db) where
  -- A reconciliation by a stored worker keeps the accounts, where the leases have distinct keys: a
  -- lease that was still active gives back what it reserved, and one that was already released, or
  -- whose reconciliation is on record, gives back nothing.
  pub reconcile-IsAccounted :
      {db' : Db}
      → IsAccounted db
      → IsUnique db.leases
      → find worker.id db.workers ≡ some worker
      → reconcile_terminal_lease worker lease_id payload e db ≡ ok (tt, db')
      → IsAccounted db'
  reconcile-IsAccounted {db'} a unique known h =
      let r = reconcile_ok worker lease_id payload e db h in
      let l : ResourceLease = r.lease in
      let there : find l.id db.leases ≡ some l =
        find-first (is_owned worker lease_id) l db.leases unique r.owned in
      let own : l.worker_id ≡ worker.id =
        owned_worker worker lease_id l
          (first-holds (is_owned worker lease_id) l db.leases r.owned) in
      let present : find l.worker_id db.workers ≡ some worker =
        subst (λ k. find k db.workers ≡ some worker) (sym own) known in
      elim r.outcome [
        | inl (_, _, same) ↦ rw same a
        | inr (_, settled) ↦ elim (Bool-cases (is_active l.state)) [
          | inr over ↦ record {
            at = λ i w f.
                let leases : db'.leases ≡ db.leases = ground (arith, settled) in
                let workers : db'.workers ≡ db.workers = ground (arith, settled) in
                subst (λ t. IsBalanced w t) (sym leases)
                  (a.at i w (subst (λ t. find i t ≡ some w) workers f));
          }
          | inl live ↦ record {
            at = λ i w f.
                let leases : db'.leases ≡ save (record l { state = released }) db.leases =
                  ground (arith, settled) in
                let workers : db'.workers ≡ save (return_resources worker l) db.workers =
                  ground (arith, settled) in
                subst (λ t. IsBalanced w t) (sym leases)
                  (settled-IsBalanced l l db.workers db.leases there refl refl refl live a.at
                    (some worker) present i w (subst (λ t. find i t ≡ some w) workers f));
          }
        ]
      ]
