-- ===== src/Claim/Grant.antt =====
-- What `claim_next_work` of apps/api/app/service.py finds and changes.
use dev_agent.Base.{
  ℕ, ◌+◌, ◌≤◌, ◌≡◌, ◌⊎◌, inl, inr, Key, Bool, true, false, none, some, ◌∷◌, select, arith, ◌&&◌,
  is_some, Option-cases, Bool-cases,
}
use dev_agent.Base.Table.{find, save, find-save_self}
use dev_agent.Models.{
  Db, WorkItem, WorkerHost, ResourceLease, provisioning, work_keyed, worker_keyed,
}
use dev_agent.Claim.{
  ClaimRequest, Draw, Claimed, oldest, is_claimable, is_available, has_room, new_lease, reserve,
  grant_lease, lease_collides, claim_item, claim_change, claim_next_work,
}
use dev_agent.Claim.Order.{oldest-select, oldest_claimable}
use dev_agent.Service.{moved, transition_work_item}
use dev_agent.Service.Transition.{moved_db, transition_ok}
use dev_agent.Tx.{Env, Error, ok, err, Result-cases}

abbrev pub assigned : WorkItem → WorkerHost → WorkItem
assigned item worker = record item { assigned_worker_id = some worker.id }

-- The item as the claim leaves it.
abbrev pub claimed : WorkItem → WorkerHost → Env → WorkItem
claimed item worker e = moved (assigned item worker) provisioning e.now

-- A grant adds the lease and the reservation, or it raises.
grant_lease-Grants :
    (worker : WorkerHost) (r : ClaimRequest) (lease : ResourceLease) (e : Env) (db : Db)
    → ((lease_collides lease db.leases ≡ false)
        × (grant_lease worker r lease e db
            ≡ ok (
              tt,
              record db {
                leases = lease ∷ db.leases;
                workers = save (reserve worker r) db.workers;
              },
            )))
      ⊎ ((x : Error) × (grant_lease worker r lease e db ≡ err x))
unfolding grant_lease
grant_lease-Grants worker r lease e db = ground arith

module _ (worker : WorkerHost) (r : ClaimRequest) (lease_seconds : ℕ) (draw : Draw) (e : Env)
    (db : Db) where
  abbrev pub lease_for : WorkItem → ResourceLease
  lease_for item =
      new_lease (claimed item worker e) worker r draw.lease_id (e.hash_token draw.token)
        (e.now + lease_seconds) e.now

  abbrev assigned_db : WorkItem → Db
  assigned_db item = record db { works = save (assigned item worker) db.works }

  -- The database after the claim of `item`.
  abbrev pub claimed_db : WorkItem → Db
  claimed_db item =
      let d : Db =
        moved_db (assigned item worker) (claim_change (assigned item worker) worker) e.now
          (assigned_db item) in
      record d { leases = lease_for item ∷ db.leases; workers = save (reserve worker r) db.workers }

  claim_item_ok :
      (item : WorkItem) {old : WorkItem} {c : Claimed} {db' : Db}
      → find item.id db.works ≡ some old
      → claim_item worker r lease_seconds draw item e db ≡ ok (c, db')
      → (c ≡ some (claimed item worker e, draw.token, lease_for item))
        × (db' ≡ claimed_db item)
        × (lease_collides (lease_for item) db.leases ≡ false)
  unfolding claim_item moved_db
  claim_item_ok item {c} {db'} there h =
      let a : WorkItem = assigned item worker in
      elim (Result-cases (transition_work_item a (claim_change a worker) e (assigned_db item))) [
        | inl (x, failed) ↦ absurd (ground arith)
        | inr ((item', db1), done) ↦
            let m =
              transition_ok a (claim_change a worker) e (assigned_db item)
                (find-save_self a db.works there) done in
            ground (arith, m.result, m.database, grant_lease-Grants worker r (lease_for item) e db1)
      ]

  -- A claim that took `item`.
  pub record Granted (locked : Key → Bool) (item : WorkItem) (db' : Db) : Type 0 where
    pub available : is_available worker ≡ true
    pub room : has_room worker r ≡ true
    pub chosen : oldest (select (is_claimable locked) db.works) ≡ some item
    pub claimable : is_claimable locked item ≡ true
    pub there : is_some (find item.id db.works) ≡ true
    pub fresh : lease_collides (lease_for item) db.leases ≡ false
    pub database : db' ≡ claimed_db item

  -- What a claim may have come to.
  abbrev pub Outcome : (Key → Bool) → Claimed → Db → Type 0
  Outcome locked c db' =
      ((item : WorkItem) × (c ≡ some (claimed item worker e, draw.token, lease_for item))
        × Granted locked item db')
      ⊎ ((c ≡ none)
          × (db' ≡ db)
          × ((is_available worker && has_room worker r ≡ false)
              ⊎ (oldest (select (is_claimable locked) db.works) ≡ none)))

  -- A claim hands out the oldest claimable item to a worker that is online, not quarantined and has
  -- the resources, with a new active lease and exactly its reservation; or it hands out nothing and
  -- changes nothing, since the worker is not available, lacks room, or no item can be claimed.
  pub claim-Outcome :
      (locked : Key → Bool) {c : Claimed} {db' : Db}
      → claim_next_work worker r lease_seconds draw locked e db ≡ ok (c, db')
      → Outcome locked c db'
  unfolding claim_next_work
  claim-Outcome locked {c} {db'} h = elim (Bool-cases (is_available worker && has_room worker r)) [
    | inr refused ↦ inr (ground arith, ground arith, inl refused)
    | inl open_ ↦ elim (Option-cases (oldest (select (is_claimable locked) db.works))) [
      | inl nothing ↦ inr (ground arith, ground arith, inr nothing)
      | inr (item, found) ↦
          let facts = oldest-select (is_claimable locked) item db.works found in
          elim (Option-cases (find item.id db.works)) [
            | inl missing ↦ absurd (ground arith)
            | inr (old, there) ↦
                let done = claim_item_ok item {c = c} {db' = db'} there (ground arith) in
                inl (
                  item,
                  done.0,
                  record {
                    available = ground arith;
                    room = ground arith;
                    chosen = found;
                    claimable = facts.0;
                    there = facts.1;
                    fresh = done.2;
                    database = done.1;
                  },
                )
          ]
    ]
  ]

  -- First come, first served: a work item that can be claimed before a claim is no older than the one
  -- that the claim hands out, which was not locked by another transaction.
  pub claims_oldest :
      (locked : Key → Bool) {item : WorkItem} {token : Key} {l : ResourceLease} {db' : Db} (i : Key)
      {x : WorkItem}
      → claim_next_work worker r lease_seconds draw locked e db ≡ ok (some (item, token, l), db')
      → find i db.works ≡ some x
      → is_claimable locked x ≡ true
      → (item.created_at ≤ x.created_at) × (locked item.id ≡ false)
  unfolding moved is_claimable
  claims_oldest locked {item} i {x} h there open_ = elim (claim-Outcome locked h) [
    | inr (nothing, same, why) ↦ absurd (ground arith)
    | inl (chosen, same, g) ↦
        let older : chosen.created_at ≤ x.created_at =
          oldest_claimable locked db.works i g.chosen there open_ in
        let it : item ≡ claimed chosen worker e = ground (arith, same) in
        rw it (older, ground (arith, g.claimable))
  ]
