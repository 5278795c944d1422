-- ===== src/Accounts/Keep.antt =====
-- The accounts of the workers' resources, and a claim (apps/api/app/service.py, `claim_next_work`).
use dev_agent.Base.{
  ℕ, ◌+◌, ◌≡◌, ◌≢◌, ◌⊎◌, ◌∙◌, refl, inl, inr, Key, Bool, true, some, List, ◌∷◌, arith, nat_beq,
  Bool-cases,
}
use dev_agent.Base.Table.{find, save, find-save, find-key}
use dev_agent.Models.{
  Db, ResourceLease, WorkerHost, WorkItem, active, released, lease_keyed, worker_keyed, work_keyed,
}
use dev_agent.Accounts.{reserved, reserved-cons, reserved-save, is_held}
use dev_agent.Claim.{ClaimRequest, Draw, Claimed, has_room, reserve, new_lease, claim_next_work}
use dev_agent.Claim.Grant.{Granted, claim-Outcome, lease_for}
use dev_agent.Leases.{return_resources}
use dev_agent.Tx.{Env, ok}

-- A worker's total is what is available and what its leases reserve.
pub record IsBalanced (w : WorkerHost) (leases : List ResourceLease) : Type 0 where
  pub cpu : w.cpu_available + reserved (λ l. l.cpu) w.id leases ≡ w.cpu_total
  pub memory_mb :
      w.memory_mb_available + reserved (λ l. l.memory_mb) w.id leases ≡ w.memory_mb_total

pub record IsAccounted (db : Db) : Type 0 where
  pub at : (i : Key) (w : WorkerHost) → find i db.workers ≡ some w → IsBalanced w db.leases

-- The reservation of a claim moves what it takes from the one to the other.
reserve-IsBalanced :
    (w : WorkerHost) (r : ClaimRequest) (l : ResourceLease) (t : List ResourceLease)
    → has_room w r ≡ true
    → l.worker_id ≡ w.id
    → l.state ≡ active
    → l.cpu ≡ r.cpu
    → l.memory_mb ≡ r.memory_mb
    → IsBalanced w t
    → IsBalanced (reserve w r) (l ∷ t)
unfolding has_room reserve
reserve-IsBalanced w r l t room own live c m b = record {
  cpu = rw (reserved-cons (λ l. l.cpu) w.id l t) (ground (arith, b.cpu));
  memory_mb = rw (reserved-cons (λ l. l.memory_mb) w.id l t) (ground (arith, b.memory_mb));
}

-- A new lease of another worker is nothing to this one.
cons-IsBalanced :
    (w : WorkerHost) (l : ResourceLease) (t : List ResourceLease)
    → l.worker_id ≢ w.id
    → IsBalanced w t
    → IsBalanced w (l ∷ t)
cons-IsBalanced w l t other b = record {
  cpu = rw (reserved-cons (λ l. l.cpu) w.id l t) (ground (arith, b.cpu));
  memory_mb = rw (reserved-cons (λ l. l.memory_mb) w.id l t) (ground (arith, b.memory_mb));
}

-- Which row is found after a save: the saved one under its key, the old one elsewhere.
pub found_after_save :
    (i : Key) (r w : WorkerHost) (t : List WorkerHost)
    → find i (save r t) ≡ some w
    → ((r.id ≡ i) × (w ≡ r)) ⊎ ((r.id ≢ i) × (find i t ≡ some w))
found_after_save i r w t h = elim (Bool-cases (nat_beq r.id i)) [
  | inl same ↦ inl (ground arith, ground (arith, find-save i r t))
  | inr other ↦ inr (ground arith, ground (arith, find-save i r t))
]

-- One worker's row is saved and the leases change: it is enough to look at that worker, and to see
-- that the others' accounts stay.
pub resaved :
    (r : WorkerHost) (workers : List WorkerHost) (t t' : List ResourceLease)
    → ((i : Key) (w : WorkerHost) → find i workers ≡ some w → IsBalanced w t)
    → IsBalanced r t'
    → ((w : WorkerHost) → r.id ≢ w.id → IsBalanced w t → IsBalanced w t')
    → (i : Key) (w : WorkerHost) → find i (save r workers) ≡ some w
    → IsBalanced w t'
resaved r workers t t' all mine others i w f = elim (found_after_save i r w workers f) [
  | inl (same, e) ↦ rw e mine
  | inr (other, f') ↦ others w (λ same. other (same ∙ find-key i w workers f')) (all i w f')
]

-- The release of a held lease moves its resources back; the cap by the total cuts nothing off.
pub return-IsBalanced :
    (w : WorkerHost) (l old : ResourceLease) (t : List ResourceLease)
    → find l.id t ≡ some old
    → is_held w.id old ≡ true
    → l.cpu ≡ old.cpu
    → l.memory_mb ≡ old.memory_mb
    → IsBalanced w t
    → IsBalanced (return_resources w l) (save (record l { state = released }) t)
unfolding return_resources
return-IsBalanced w l old t there holding c m b =
    let l' : ResourceLease = record l { state = released } in
    record {
      cpu = ground (arith, b.cpu, reserved-save (λ l. l.cpu) w.id l' old t there);
      memory_mb = ground (arith, b.memory_mb, reserved-save (λ l. l.memory_mb) w.id l' old t there);
    }

-- A change of a lease that does not belong to the worker leaves its account alone.
pub save-IsBalanced :
    (w : WorkerHost) (l old : ResourceLease) (t : List ResourceLease)
    → find l.id t ≡ some old
    → old.worker_id ≢ w.id
    → l.worker_id ≢ w.id
    → IsBalanced w t
    → IsBalanced w (save l t)
save-IsBalanced w l old t there o n b = record {
  cpu = ground (arith, b.cpu, reserved-save (λ l. l.cpu) w.id l old t there);
  memory_mb = ground (arith, b.memory_mb, reserved-save (λ l. l.memory_mb) w.id l old t there);
}

-- A change of a lease that holds what it held leaves every account as it was.
pub keep-IsBalanced :
    (w : WorkerHost) (l old : ResourceLease) (t : List ResourceLease)
    → find l.id t ≡ some old
    → is_held w.id l ≡ is_held w.id old
    → l.cpu ≡ old.cpu
    → l.memory_mb ≡ old.memory_mb
    → IsBalanced w t
    → IsBalanced w (save l t)
keep-IsBalanced w l old t there k c m b = record {
  cpu = ground (arith, b.cpu, reserved-save (λ l. l.cpu) w.id l old t there);
  memory_mb = ground (arith, b.memory_mb, reserved-save (λ l. l.memory_mb) w.id l old t there);
}

module _ (worker : WorkerHost) (r : ClaimRequest) (lease_seconds : ℕ) (draw : Draw) (e : Env)
    (db : Db) where
  Granted-IsAccounted :
      (locked : Key → Bool) (item : WorkItem) (db' : Db)
      → IsAccounted db
      → find worker.id db.workers ≡ some worker
      → Granted worker r lease_seconds draw e db locked item db'
      → IsAccounted db'
  unfolding new_lease reserve
  Granted-IsAccounted locked item db' a known g =
      let lease : ResourceLease = lease_for worker r lease_seconds draw e db item in
      rw g.database (record {
        at =
            resaved (reserve worker r) db.workers db.leases (lease ∷ db.leases) a.at
              (reserve-IsBalanced worker r lease db.leases g.room refl refl refl refl
                (a.at worker.id worker known))
              (λ w other. cons-IsBalanced w lease db.leases other);
      })

  -- A claim keeps the accounts: each worker's total is what it has available and what its leases
  -- reserve.
  pub claim-IsAccounted :
      (locked : Key → Bool) {c : Claimed} {db' : Db}
      → IsAccounted db
      → find worker.id db.workers ≡ some worker
      → claim_next_work worker r lease_seconds draw locked e db ≡ ok (c, db')
      → IsAccounted db'
  claim-IsAccounted locked {c} {db'} a known h =
      elim (claim-Outcome worker r lease_seconds draw e db locked h) [
        | inl (item, _, g) ↦ Granted-IsAccounted locked item db' a known g
        | inr (_, same, _) ↦ rw same a
      ]
