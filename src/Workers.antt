-- ===== src/Workers.antt =====
-- The worker's side of apps/api/app/main.py: registration, heartbeat, claim; and `bound_worker` of
-- apps/api/app/auth.py.
use dev_agent.Base.{
  ℕ, Key, Time, Bool, true, false, Option, none, some, ◌∷◌, ◌&&◌, ◌||◌, not, nat_beq, is_some,
  if◌then◌else◌,
}
use dev_agent.Base.Table.{find, save}
use dev_agent.Models.{WorkerHost, WorkerState, Fields, online, is_offline, worker_keyed}
use dev_agent.Claim.{ClaimRequest, Draw, Claimed, claim_next_work}
use dev_agent.Credentials.{find_named}
use dev_agent.Leases.Reconcile.{
  ReconciliationRequest, reconcile_terminal_lease, owned_lease, lease_view, WorkerLeaseView,
}
use dev_agent.Tx.{Tx, ok, http, pure, raise, require, or_raise, reads, asks, modify, ◌>>=◌, ◌>>◌}

-- `identity` is the worker of an individual credential; none for the shared development secret.
unfoldable pub bound_worker : Key → Option WorkerHost → Tx WorkerHost
bound_worker worker_id (some identity) = do
  require (nat_beq identity.id worker_id) (http 403 "worker credential scope mismatch")
  pure identity
bound_worker worker_id none = do
  worker ← or_raise (← reads (λ db. find worker_id db.workers)) (http 404 "worker not found")
  require (not (worker.credential_required || is_some worker.quarantined_at))
      (http 403 "individual worker credential required")
  pure worker

pub record WorkerRegistration : Type 0 where
  pub name : Key
  pub cpu_total : ℕ
  pub memory_mb_total : ℕ
  pub disk_gb_available : ℕ
  pub labels : Fields

unfoldable pub new_worker : WorkerRegistration → Key → Time → WorkerHost
new_worker r id now = record {
  id = id;
  name = r.name;
  credential_required = false;
  quarantined_at = none;
  state = online;
  cpu_total = r.cpu_total;
  cpu_available = r.cpu_total;
  memory_mb_total = r.memory_mb_total;
  memory_mb_available = r.memory_mb_total;
  disk_gb_available = r.disk_gb_available;
  active_runs = 0;
  labels = r.labels;
  last_seen_at = now;
  created_at = now;
}

-- `worker.cpu_total == 0 and worker.memory_mb_total == 0 and worker.active_runs == 0`
abbrev pub is_blank_worker : WorkerHost → Bool
is_blank_worker w = nat_beq w.cpu_total 0 && nat_beq w.memory_mb_total 0 && nat_beq w.active_runs 0

-- The assignments to a worker that is known.
unfoldable pub reregistered : WorkerHost → WorkerRegistration → Time → WorkerHost
reregistered w r now = record w {
  cpu_available = if is_blank_worker w then r.cpu_total else w.cpu_available;
  memory_mb_available = if is_blank_worker w then r.memory_mb_total else w.memory_mb_available;
  cpu_total = r.cpu_total;
  memory_mb_total = r.memory_mb_total;
  disk_gb_available = if nat_beq w.active_runs 0 then r.disk_gb_available else w.disk_gb_available;
  labels = r.labels;
  last_seen_at = now;
  state = if is_offline w.state then online else w.state;
}

abbrev pub has_name : Key → Option WorkerHost → Bool
has_name n none = true
has_name n (some w) = nat_beq w.name n

abbrev pub save_worker : WorkerHost → Tx WorkerHost
save_worker w e db = ok (w, record db { workers = save w db.workers })

unfoldable pub register_worker :
    WorkerRegistration → (fresh_id : Key) → Option WorkerHost → Tx WorkerHost
unfolding find_named new_worker reregistered bound_worker
register_worker r fresh_id identity = do
  require (has_name r.name identity) (http 403 "worker credential scope mismatch")
  known ← reads (λ db. find_named r.name db.workers)
  now ← asks (λ e. e.now)
  elim known [
    | none ↦ (do
      let w = new_worker r fresh_id now
      modify (λ db. record db { workers = w ∷ db.workers })
      pure w)
    | some w ↦ (do bound ← bound_worker w.id identity; save_worker (reregistered bound r now))
  ]

pub record WorkerHeartbeat : Type 0 where
  pub state : WorkerState
  pub cpu_available : ℕ
  pub memory_mb_available : ℕ
  pub disk_gb_available : ℕ
  pub active_runs : ℕ

unfoldable pub worker_heartbeat : Key → WorkerHeartbeat → Option WorkerHost → Tx WorkerHost
unfolding bound_worker
worker_heartbeat worker_id h identity = do
  w ← bound_worker worker_id identity
  now ← asks (λ e. e.now)
  save_worker (record w {
    state = h.state;
    cpu_available = h.cpu_available;
    memory_mb_available = h.memory_mb_available;
    disk_gb_available = h.disk_gb_available;
    active_runs = h.active_runs;
    last_seen_at = now;
  })

unfoldable pub claim_work :
    Key → ClaimRequest → ℕ → Draw → (Key → Bool) → Option WorkerHost → Tx Claimed
unfolding bound_worker
claim_work worker_id r lease_seconds draw locked identity = do
  worker ← bound_worker worker_id identity
  claim_next_work worker r lease_seconds draw locked

unfoldable pub inspect_worker_lease : Key → Key → Option WorkerHost → Tx WorkerLeaseView
inspect_worker_lease worker_id lease_id none =
    raise (http 403 "individual worker credential required")
inspect_worker_lease worker_id lease_id (some identity) = do
  worker ← bound_worker worker_id (some identity)
  (lease, item) ← owned_lease worker lease_id
  pure (lease_view lease item)

unfoldable pub reconcile_worker_lease :
    Key → Key → ReconciliationRequest → Option WorkerHost → Tx (Unit {0})
reconcile_worker_lease worker_id lease_id payload none =
    raise (http 403 "individual worker credential required")
reconcile_worker_lease worker_id lease_id payload (some identity) = do
  worker ← bound_worker worker_id (some identity)
  reconcile_terminal_lease worker lease_id payload
