-- ===== src/Leases/Validate.antt =====
-- What `validate_lease` of apps/api/app/service.py asks for and writes.
use dev_agent.Base.{◌+◌, ◌≤◌, ◌≡◌, ◌≢◌, inl, inr, Option-cases, Key, none, some, true, arith, ℕ}
use dev_agent.Base.Table.{find, save}
use dev_agent.Base.Table.Rows.{first-holds}
use dev_agent.Models.{Db, ResourceLease, WorkerHost, is_active, lease_keyed, worker_keyed}
use dev_agent.Leases.{validate_lease, matches_token, token_lease}
use dev_agent.Tx.{Env, ok}

-- A lease as it stood before the request that renewed it, and what the request found.
pub record Validated (seen : Db) (work_item_id token : Key) (lease_seconds : ℕ) (e : Env) (db : Db)
    (lease : ResourceLease) (db' : Db) : Type 0 where
  pub owner : ResourceLease
  pub worker : WorkerHost
  pub current : ResourceLease
  pub was_seen : token_lease work_item_id (e.hash_token token) seen ≡ some owner
  pub locked : find owner.worker_id db.workers ≡ some worker
  pub not_quarantined : worker.quarantined_at ≡ none
  pub is_current : token_lease work_item_id (e.hash_token token) db ≡ some current
  pub of_work : current.work_item_id ≡ work_item_id
  pub of_token : current.token_hash ≡ e.hash_token token
  pub is_live : is_active current.state ≡ true
  pub unexpired : e.now ≤ current.expires_at
  pub renewed : lease ≡ record current { expires_at = e.now + lease_seconds }
  pub database : db' ≡ record db { leases = save lease db.leases }

matches_token_facts :
    (w h : Key) (l : ResourceLease)
    → matches_token w h l ≡ true
    → (l.work_item_id ≡ w) × (l.token_hash ≡ h) × (is_active l.state ≡ true)
unfolding matches_token
matches_token_facts w h l m = ground arith

module _ (seen : Db) (work_item_id : Key) (lease_seconds : ℕ) (e : Env) (db : Db) where
  -- A token is accepted only for the active, unexpired lease of its work whose worker is not
  -- quarantined, and then only the lease's expiry changes.
  pub validate_ok :
      (token : Key) {lease : ResourceLease} {db' : Db}
      → validate_lease seen work_item_id (some token) lease_seconds e db ≡ ok (lease, db')
      → Validated seen work_item_id token lease_seconds e db lease db'
  unfolding validate_lease
  validate_ok token {lease} {db'} h =
      let hash : Key = e.hash_token token in
      elim (Option-cases (token_lease work_item_id hash seen)) [
        | inl missing ↦ absurd (ground arith)
        | inr (o, eo) ↦ elim (Option-cases (find o.worker_id db.workers)) [
          | inl missing ↦ absurd (ground arith)
          | inr (w, ew) ↦ elim (Option-cases (token_lease work_item_id hash db)) [
            | inl missing ↦ absurd (ground arith)
            | inr (l, el) ↦
                let facts =
                  matches_token_facts work_item_id hash l (first-holds _ l db.leases el) in
                record {
                  owner = o;
                  worker = w;
                  current = l;
                  was_seen = eo;
                  locked = ew;
                  not_quarantined = ground arith;
                  is_current = el;
                  of_work = facts.0;
                  of_token = facts.1;
                  is_live = facts.2;
                  unexpired = ground arith;
                  renewed = ground arith;
                  database = ground arith;
                }
          ]
        ]
      ]

  -- Without a token there is no lease.
  pub validate_missing :
      {r : ResourceLease × Db} → validate_lease seen work_item_id none lease_seconds e db ≢ ok r
  unfolding validate_lease
  validate_missing h = cc
