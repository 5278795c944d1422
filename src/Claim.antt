-- ===== src/Claim.antt =====
-- `claim_next_work` of apps/api/app/service.py: a worker takes the oldest queued work item and a
-- lease on it.
pub mod Order
pub mod Grant
use dev_agent.Base.{
  ℕ, ◌+◌, ◌-◌, Key, Time, Bool, Option, none, some, List, [], ◌∷◌, ◌&&◌, ◌||◌, not, any, select,
  nat_beq, leb, is_some, if◌then◌else◌,
}
use dev_agent.Base.Table.{save}
use dev_agent.Models.{
  WorkItem, WorkerHost, ResourceLease, queued, provisioning, is_online, active, worker_name,
  work_keyed, worker_keyed, end, status_beq,
}
use dev_agent.Service.{Change, transition_work_item}
use dev_agent.Tx.{Tx, integrity, pure, require, reads, asks, modify, ◌>>=◌, ◌>>◌}

pub record ClaimRequest : Type 0 where
  pub cpu : ℕ
  pub memory_mb : ℕ
  pub disk_gb : ℕ

-- `worker.state != ONLINE or worker.quarantined_at is not None`, negated.
unfoldable pub is_available : WorkerHost → Bool
is_available w = is_online w.state && not (is_some w.quarantined_at)

-- The negation of the test for insufficient resources.
unfoldable pub has_room : WorkerHost → ClaimRequest → Bool
has_room w r =
    leb r.cpu w.cpu_available
    && leb r.memory_mb w.memory_mb_available
    && leb r.disk_gb w.disk_gb_available

-- The `WHERE` of the query; `skip_locked` leaves out the rows that other transactions hold.
unfoldable pub is_claimable : (Key → Bool) → WorkItem → Bool
is_claimable locked w = status_beq w.status queued && not (locked w.id)

-- `.order_by(WorkItem.created_at).limit(1)`
unfoldable pub oldest : List WorkItem → Option WorkItem
oldest [] = none
oldest (w ∷ ws) = elim (oldest ws) [
  | none ↦ some w
  | some v ↦ if leb v.created_at w.created_at then some v else some w
]

-- `work_item_id` and `token_hash` are unique columns, `id` is the primary key.
unfoldable pub lease_collides : ResourceLease → List ResourceLease → Bool
lease_collides l ls =
    any
      (λ x.
        nat_beq x.id l.id
        || nat_beq x.work_item_id l.work_item_id
        || nat_beq x.token_hash l.token_hash)
      ls

unfoldable pub new_lease :
    WorkItem → WorkerHost → ClaimRequest → Key → Key → Time → Time → ResourceLease
new_lease item worker r id hash expiry now = record {
  id = id;
  work_item_id = item.id;
  worker_id = worker.id;
  token_hash = hash;
  state = active;
  cpu = r.cpu;
  memory_mb = r.memory_mb;
  disk_gb = r.disk_gb;
  expires_at = expiry;
  created_at = now;
}

-- The worker's row after the reservation; `has_room` holds, so `-` does not stop at 0.
unfoldable pub reserve : WorkerHost → ClaimRequest → WorkerHost
reserve w r = record w {
  cpu_available = w.cpu_available - r.cpu;
  memory_mb_available = w.memory_mb_available - r.memory_mb;
  disk_gb_available = w.disk_gb_available - r.disk_gb;
  active_runs = w.active_runs + 1;
}

-- What `secrets.token_urlsafe` and the default of `ResourceLease.id` draw.
pub record Draw : Type 0 where
  pub token : Key
  pub lease_id : Key

-- The lease's token stays with the caller; the database has its digest.
abbrev pub Claimed : Type 0
Claimed = Option (WorkItem × Key × ResourceLease)

abbrev pub claim_change : WorkItem → WorkerHost → Change
claim_change item worker = record {
  target = provisioning;
  expected_version = item.version;
  actor = worker_name worker.name;
  worker_id = none;
  message = "";
  payload = end;
}

-- The lease of a claimed item, and the reservation.
unfoldable pub grant_lease : WorkerHost → ClaimRequest → ResourceLease → Tx (Unit {0})
unfolding reserve lease_collides
grant_lease worker r lease = do
  leases ← reads (λ db. db.leases)
  require (not (lease_collides lease leases)) integrity
  modify
      (λ db. record db { leases = lease ∷ db.leases; workers = save (reserve worker r) db.workers })

unfoldable pub claim_item : WorkerHost → ClaimRequest → ℕ → Draw → WorkItem → Tx Claimed
unfolding new_lease
claim_item worker r lease_seconds draw item = do
  now ← asks (λ e. e.now)
  hash ← asks (λ e. e.hash_token draw.token)
  let assigned = record item { assigned_worker_id = some worker.id }
  modify (λ db. record db { works = save assigned db.works })
  item' ← transition_work_item assigned (claim_change assigned worker)
  let lease = new_lease item' worker r draw.lease_id hash (now + lease_seconds) now
  grant_lease worker r lease
  pure (some (item', draw.token, lease))

unfoldable pub claim_next_work : WorkerHost → ClaimRequest → ℕ → Draw → (Key → Bool) → Tx Claimed
unfolding is_available has_room is_claimable oldest
claim_next_work worker r lease_seconds draw locked e db =
    if not (is_available worker)
    then pure none e db
    else if not (has_room worker r)
    then pure none e db
    else elim (oldest (select (is_claimable locked) db.works)) [
      | none ↦ pure none e db
      | some item ↦ claim_item worker r lease_seconds draw item e db
    ]
