-- ===== src/Quarantine/Shut.antt =====
-- The credentials, the lease tokens and the claims of a worker after `quarantine_worker`
-- (apps/api/app/worker_quarantine.py).
use dev_agent.Base.{
  ◌≡◌, refl, ℕ, Key, some, none, Bool, true, arith, Option-cases, Bool-cases, inl, inr, is_some,
  String,
}
use dev_agent.Base.Table.{find, find-key}
use dev_agent.Models.{
  Db, ResourceLease, WorkerHost, WorkerCredential, worker_keyed, credential_keyed,
}
use dev_agent.Claim.{ClaimRequest, Draw, claim_next_work, is_available}
use dev_agent.Credentials.{
  authenticate_worker, lock_credential, lock_worker, accepts, validate_audit,
}
use dev_agent.Leases.{validate_lease, check_lease, token_lease, invalid_lease}
use dev_agent.Quarantine.{QuarantineResult, quarantine_worker, isolate}
use dev_agent.Quarantine.Fences.{quarantine-Fenced, isolate_new}
use dev_agent.Tx.{Env, ok, err}

-- What a worker can no longer do, at any time and with any token.
pub record ShutOut (i : Key) (db : Db) : Type 0 where
  pub row : WorkerHost
  pub found : find i db.workers ≡ some row
  pub no_authentication :
      (c : WorkerCredential) (k token : Key) (e : Env)
      → find k db.credentials ≡ some c
      → c.worker_id ≡ i
      → authenticate_worker (some k) token e db ≡ ok (none, db)
  pub no_token :
      (seen : Db) (work_item_id token : Key) (lease_seconds : ℕ) (e : Env) (owner : ResourceLease)
      → token_lease work_item_id (e.hash_token token) seen ≡ some owner
      → owner.worker_id ≡ i
      → validate_lease seen work_item_id (some token) lease_seconds e db ≡ err invalid_lease
  pub no_claim :
      (r : ClaimRequest) (lease_seconds : ℕ) (draw : Draw) (locked : Key → Bool) (e : Env)
      → claim_next_work row r lease_seconds draw locked e db ≡ ok (none, db)

module _ (i : Key) (db : Db) (w : WorkerHost) (found : find i db.workers ≡ some w)
    (gone : is_some w.quarantined_at ≡ true) where
  refuses_credential :
      (c : WorkerCredential) (k token : Key) (e : Env)
      → find k db.credentials ≡ some c
      → c.worker_id ≡ i
      → authenticate_worker (some k) token e db ≡ ok (none, db)
  unfolding authenticate_worker lock_credential lock_worker accepts
  refuses_credential c k token e there own = ground (arith, find-key i w db.workers found)

  refuses_token :
      (seen : Db) (work_item_id token : Key) (lease_seconds : ℕ) (e : Env) (owner : ResourceLease)
      → token_lease work_item_id (e.hash_token token) seen ≡ some owner
      → owner.worker_id ≡ i
      → validate_lease seen work_item_id (some token) lease_seconds e db ≡ err invalid_lease
  unfolding validate_lease check_lease
  refuses_token seen j token s e owner known own =
      elim (Option-cases (token_lease j (e.hash_token token) db)) [
        | inl missing ↦ ground arith
        | inr (l, there) ↦ ground arith
      ]

  refuses_claim :
      (r : ClaimRequest) (lease_seconds : ℕ) (draw : Draw) (locked : Key → Bool) (e : Env)
      → claim_next_work w r lease_seconds draw locked e db ≡ ok (none, db)
  unfolding claim_next_work is_available
  refuses_claim r s d locked e = ground arith

  shut : ShutOut i db
  shut = record {
    row = w;
    found = found;
    no_authentication = refuses_credential;
    no_token = refuses_token;
    no_claim = refuses_claim;
  }

-- Once a quarantine has returned, a first or a repeated one, the worker is shut out: none of its
-- credentials lets anybody in, none of its leases' tokens is accepted, even if the lease was read
-- before the quarantine, and its row claims nothing.
pub quarantine-ShutOut :
    (i : Key) (actor reason : String) (e : Env) (db : Db) {r : QuarantineResult} {db' : Db}
    → quarantine_worker i actor reason e db ≡ ok (r, db')
    → ShutOut i db'
unfolding quarantine_worker validate_audit lock_worker
quarantine-ShutOut i actor reason e db {r} {db'} h = elim (Bool-cases r.already_quarantined) [
  | inr new ↦
      let f = quarantine-Fenced i actor reason e db h new in
      shut i db' f.row f.found (rw f.quarantined_at refl)
  | inl old ↦ elim (Option-cases (find i db.workers)) [
    | inl missing ↦ absurd (ground arith)
    | inr (w, found) ↦ elim (Bool-cases (is_some w.quarantined_at)) [
      | inl gone ↦ let same : db' ≡ db = ground arith in rw same (shut i db w found gone)
      | inr free ↦
          let done : isolate w actor reason e db ≡ ok (r, db') = ground arith in
          absurd (ground (arith, isolate_new w actor reason e db done))
    ]
  ]
]
