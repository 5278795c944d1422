-- ===== src/Retention/Group.antt =====
-- `locked_group` of apps/api/app/artifact_retention.py: the locks and guards of a purge.
use dev_agent.Base.{
  ℕ, Key, Time, Bool, true, false, Option, none, some, List, [], ◌∷◌, ◌&&◌, not, nat_beq, nat_eq,
  ltb, leb, any, select, length, is_some, holds, if◌then◌else◌, ◌+◌, ◌*◌,
}
use dev_agent.Base.Table.{find}
use dev_agent.Base.Table.Rows.{first}
use dev_agent.Models.{
  Db, WorkItem, Artifact, ResourceLease, DeliveryJob, PreviewEndpoint, ConsoleLease, LeaseState,
  released, WorkStatus, completed, cancelled, JobState, done, work_keyed, worker_keyed, job_keyed,
  console_keyed, artifact_keyed,
}
use dev_agent.Tx.{Tx, protected, pure, raise, require, or_raise, reads, for_each, ◌>>=◌, ◌>>◌}

abbrev pub max_aliases : ℕ
max_aliases = 10000

abbrev pub seconds_per_day : ℕ
seconds_per_day = 86400

-- `owners`, in the order of `sorted`
abbrev pub owners : Option Key → Option Key → List Key
owners none none = []
owners (some a) none = a ∷ []
owners none (some b) = b ∷ []
owners (some a) (some b) =
    if nat_beq a b then a ∷ [] else if ltb a b then a ∷ b ∷ [] else b ∷ a ∷ []

abbrev pub same_owners : List Key → List Key → Bool
same_owners [] [] = true
same_owners (a ∷ as_) (b ∷ bs) = nat_beq a b && same_owners as_ bs
same_owners _ _ = false

abbrev pub lease_of : Key → Db → Option ResourceLease
lease_of work db = first (λ l. nat_beq l.work_item_id work) db.leases

abbrev pub worker_of : Option ResourceLease → Option Key
worker_of none = none
worker_of (some l) = some l.worker_id

unfoldable pub check_owner : Key → Tx (Unit {0})
check_owner owner = do
  worker ←
      or_raise (← reads (λ db. find owner db.workers)) (protected "worker_quarantined_or_missing")
  require (not (is_some worker.quarantined_at)) (protected "worker_quarantined_or_missing")

-- The lease agrees with the work's assignment.
abbrev pub consistent_owner : WorkItem → Option ResourceLease → Bool
consistent_owner work none = not (is_some work.assigned_worker_id)
consistent_owner work (some l) = holds l.worker_id work.assigned_worker_id

abbrev is_released_state : LeaseState → Bool
is_released_state released = true
is_released_state other = false

abbrev pub is_settled_lease : Option ResourceLease → Bool
is_settled_lease none = true
is_settled_lease (some l) = is_released_state l.state

abbrev pub is_final_work : WorkStatus → Bool
is_final_work completed = true
is_final_work cancelled = true
is_final_work other = false

abbrev is_done : JobState → Bool
is_done done = true
is_done other = false

abbrev pub is_final_job : Option DeliveryJob → Bool
is_final_job none = true
is_final_job (some j) = is_done j.state

-- `aware(time) > now - timedelta(days=days)`
abbrev pub is_recent : (now : Time) → (days : ℕ) → Time → Bool
is_recent now days t = ltb now (t + days * seconds_per_day)

-- `order_by(Artifact.id)`
unfoldable pub insert_row : Artifact → List Artifact → List Artifact
insert_row r [] = r ∷ []
insert_row r (x ∷ xs) = let rest = insert_row r xs in if leb r.id x.id then r ∷ x ∷ xs else x ∷ rest

unfoldable pub by_id : List Artifact → List Artifact
unfolding insert_row
by_id [] = []
by_id (r ∷ rs) = insert_row r (by_id rs)

-- The artifacts that share a file.
abbrev pub aliases : Key → Db → List Artifact
aliases key db = by_id (select (λ a. nat_beq a.object_key key) db.artifacts)

abbrev pub same_option : Option ℕ → Option ℕ → Bool
same_option none none = true
same_option none (some b) = false
same_option (some a) o = holds a o

abbrev pub same_state : Artifact → Artifact → Bool
same_state a b =
    same_option a.expired_at b.expired_at
    && same_option a.purged_at b.purged_at
    && same_option a.retention_days b.retention_days
    && same_option a.retention_sha256 b.retention_sha256
    && nat_beq a.size_bytes b.size_bytes

-- The checks on an expiry that was requested before.
unfoldable pub check_expired : (now : Time) → (days : ℕ) → Artifact → Option Time → Tx (Unit {0})
check_expired now days a none = pure tt
check_expired now days a (some t) = do
  require (holds days a.retention_days) (protected "retention_policy_changed")
  require (leb t now) (protected "future_expiration")

-- The first row; the set of states has one member where every row has the first one's.
unfoldable pub check_aliases :
    (now : Time) → (days : ℕ) → (identity work : Key) → List Artifact → Tx Artifact
unfolding check_expired
check_aliases now days identity work [] = raise (protected "alias_set_changed_or_too_large")
check_aliases now days identity work (a ∷ as_) = do
  require (leb (length (a ∷ as_)) max_aliases && any (λ r. nat_beq r.id identity) (a ∷ as_))
      (protected "alias_set_changed_or_too_large")
  require (not (any (λ r. not (nat_beq r.work_item_id work)) (a ∷ as_)))
      (protected "foreign_work_alias")
  require (not (any (λ r. is_recent now days r.created_at) (a ∷ as_))) (protected "recent_artifact")
  require (not (any (λ r. not (same_state a r)) (a ∷ as_))) (protected "inconsistent_aliases")
  check_expired now days a a.expired_at
  pure a

abbrev pub shows : Time → Option PreviewEndpoint → Bool
shows now none = false
shows now (some p) = ltb now p.expires_at

abbrev pub controls : Time → Option ConsoleLease → Bool
controls now none = false
controls now (some c) = ltb now c.expires_at

-- The work's own guards, under the locks.
unfoldable pub check_work : (now : Time) → (days : ℕ) → WorkItem → Tx (Unit {0})
check_work now days work = do
  lease ← reads (lease_of work.id)
  require (consistent_owner work lease) (protected "inconsistent_lease_owner")
  require (is_settled_lease lease) (protected "lease_not_released")
  require (is_final_work work.status) (protected "work_not_final")
  require (not (is_recent now days work.updated_at)) (protected "recent_work")
  job ← reads (λ db. find work.id db.jobs)
  require (is_final_job job) (protected "delivery_not_final")
  preview ← reads (λ db. first (λ p. nat_beq p.work_item_id work.id) db.previews)
  console ← reads (λ db. find work.id db.consoles)
  require (not (shows now preview)) (protected "active_preview")
  require (not (controls now console)) (protected "active_console")

-- What follows the locks on the owners.
unfoldable pub check_group :
    (work_id : Key)
    → (initial : List Key) → (object_key identity : Key) → (days : ℕ) → (now : Time)
    → Tx (WorkItem × Artifact × List Artifact)
unfolding check_work check_aliases
check_group work_id initial object_key identity days now = do
  work ← or_raise (← reads (λ db. find work_id db.works)) (protected "ownership_changed")
  lease ← reads (lease_of work_id)
  require (same_owners (owners work.assigned_worker_id (worker_of lease)) initial)
      (protected "ownership_changed")
  check_work now days work
  rows ← reads (aliases object_key)
  row ← check_aliases now days identity work.id rows
  pure (work, row, rows)

-- The work, and the rows behind the first of them; `seen` is the database before the locks are granted.
unfoldable pub locked_group :
    (seen : Db) → Key → (days : ℕ) → (now : Time) → Tx (WorkItem × Artifact × List Artifact)
unfolding check_owner check_group
locked_group seen identity days now = do
  seed ← or_raise (find identity seen.artifacts) (protected "artifact_missing")
  before ← or_raise (find seed.work_item_id seen.works) (protected "work_missing")
  let initial = owners before.assigned_worker_id (worker_of (lease_of before.id seen))
  for_each initial check_owner
  check_group before.id initial seed.object_key identity days now
