-- ===== src/Accounts/Settle.antt =====
-- The accounts of the workers' resources at a release (apps/api/app/main.py, `release_run`), and what
-- a release and a reconciliation share.
use dev_agent.Base.{ℕ, ◌≡◌, ◌≢◌, ◌∙◌, refl, Key, true, Option, none, some, List, arith}
use dev_agent.Base.Table.{find, save, find-key}
use dev_agent.Base.Table.Rows.{IsUnique, find-first}
use dev_agent.Models.{Db, ResourceLease, WorkerHost, released, is_active, lease_keyed, worker_keyed}
use dev_agent.Accounts.Keep.{IsBalanced, IsAccounted, resaved, return-IsBalanced, save-IsBalanced}
use dev_agent.Leases.{release_run, return_resources, matches_token}
use dev_agent.Leases.Release.{release_ok, settled_workers}
use dev_agent.Tx.{Env, ok}

module _ (lease old : ResourceLease) (workers : List WorkerHost) (leases : List ResourceLease)
    (there : find lease.id leases ≡ some old) (owner : lease.worker_id ≡ old.worker_id)
    (cpu : lease.cpu ≡ old.cpu) (memory : lease.memory_mb ≡ old.memory_mb)
    (live : is_active old.state ≡ true)
    (all : (i : Key) (w : WorkerHost) → find i workers ≡ some w → IsBalanced w leases) where
  abbrev settled_leases : List ResourceLease
  settled_leases = save (record lease { state = released }) leases

  others :
      (w : WorkerHost) → lease.worker_id ≢ w.id → IsBalanced w leases → IsBalanced w settled_leases
  others w n b =
      save-IsBalanced w (record lease { state = released }) old leases there (ground arith) n b

  pub settled-IsBalanced :
      (o : Option WorkerHost)
      → find lease.worker_id workers ≡ o
      → (i : Key) (w : WorkerHost) → find i (settled_workers lease o workers) ≡ some w
      → IsBalanced w settled_leases
  unfolding return_resources
  settled-IsBalanced none absent i w f =
      others w (λ same. absurd (ground (arith, absent, f, find-key i w workers f))) (all i w f)
  settled-IsBalanced (some v) present i w f =
      let same : v.id ≡ lease.worker_id = find-key lease.worker_id v workers present in
      resaved (return_resources v lease) workers leases settled_leases all
        (return-IsBalanced v lease old leases there (ground arith) cpu memory
          (all lease.worker_id v present))
        (λ u other. others u (λ e. other (same ∙ e))) i w f

-- A release keeps the accounts, where the leases have distinct keys: what the lease reserved is available
-- again.
pub release-IsAccounted :
    (seen : Db) (work_item_id token : Key) (lease_seconds : ℕ) (e : Env) (db : Db) {db' : Db}
    → IsAccounted db
    → IsUnique db.leases
    → release_run seen work_item_id (some token) lease_seconds e db ≡ ok (tt, db')
    → IsAccounted db'
release-IsAccounted seen i token s e db {db'} a unique h =
    let r = release_ok seen i token s e db h in
    let v = r.validated in
    let there : find v.current.id db.leases ≡ some v.current =
      find-first (matches_token i (e.hash_token token)) v.current db.leases unique v.is_current in
    rw r.database (record {
      at =
          settled-IsBalanced r.lease v.current db.workers db.leases (rw v.renewed there)
            (ground (arith, v.renewed)) (ground (arith, v.renewed)) (ground (arith, v.renewed))
            v.is_live a.at (find r.lease.worker_id db.workers) refl;
    })
