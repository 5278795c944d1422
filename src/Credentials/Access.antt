-- ===== src/Credentials/Access.antt =====
-- `authenticate_worker` and `revoke_credential` of apps/api/app/worker_credentials.py.
use dev_agent.Base.{
  ◌<◌, ◌≡◌, refl, Key, Time, none, some, true, arith, Option-cases, Bool-cases, inl, inr, is_some,
  String, is_some,
}
use dev_agent.Base.Table.{find, save, find-key, find-save}
use dev_agent.Models.{Db, WorkerHost, WorkerCredential, worker_keyed, credential_keyed}
use dev_agent.Credentials.{
  authenticate_worker, accepts, lock_credential, lock_worker, revoke_credential, validate_audit,
  record_event,
}
use dev_agent.Tx.{Env, ok}

-- What a token that was let in proves.
pub record Authenticated (credential_id token : Key) (e : Env) (db : Db) (worker : WorkerHost)
    (db' : Db) : Type 0 where
  pub credential : WorkerCredential
  pub found : find credential_id db.credentials ≡ some credential
  pub of_worker : find credential.worker_id db.workers ≡ some worker
  pub not_quarantined : worker.quarantined_at ≡ none
  pub not_revoked : credential.revoked_at ≡ none
  pub unexpired : e.now < credential.expires_at
  pub digest : credential.token_hash ≡ e.hash_token token
  pub database : db' ≡ record db {
    credentials = save (record credential { last_used_at = some e.now }) db.credentials;
  }

module _ (i token : Key) (e : Env) (db : Db) where
  accepts_facts :
      (w : WorkerHost) (c : WorkerCredential) (h : Key) (t : Time)
      → accepts w c h t ≡ true
      → (w.quarantined_at ≡ none) × (c.revoked_at ≡ none) × (t < c.expires_at) × (c.token_hash ≡ h)
  unfolding accepts
  accepts_facts w c h t a = ground arith

  -- A token is let in only for a credential that is on file, not revoked, not expired and of that
  -- token's digest, and only as its worker, who is not quarantined. Only the time of the last use
  -- is written.
  pub authenticate_ok :
      {w : WorkerHost} {db' : Db}
      → authenticate_worker (some i) token e db ≡ ok (some w, db')
      → Authenticated i token e db w db'
  unfolding authenticate_worker lock_credential lock_worker
  authenticate_ok {w} {db'} h = elim (Option-cases (find i db.credentials)) [
    | inl missing ↦ absurd (ground arith)
    | inr (c, found) ↦ elim (Option-cases (find c.worker_id db.workers)) [
      | inl missing ↦ absurd (ground arith)
      | inr (o, there) ↦ elim (Bool-cases (accepts o c (e.hash_token token) e.now)) [
        | inl good ↦
            let same : w ≡ o = ground (arith, find-key c.worker_id o db.workers there) in
            let facts = accepts_facts o c (e.hash_token token) e.now good in
            let stored : db' ≡ record db {
              credentials = save (record c { last_used_at = some e.now }) db.credentials;
            } =
              ground (arith, find-key c.worker_id o db.workers there) in
            rw same (record {
              credential = c;
              found = found;
              of_worker = there;
              not_quarantined = facts.0;
              not_revoked = facts.1;
              unexpired = facts.2;
              digest = facts.3;
              database = stored;
            })
        | inr bad ↦ absurd (ground (arith, find-key c.worker_id o db.workers there))
      ]
    ]
  ]

  -- A credential with a revocation date lets nobody in.
  pub revoked_is_refused :
      {c : WorkerCredential}
      → find i db.credentials ≡ some c
      → is_some c.revoked_at ≡ true
      → authenticate_worker (some i) token e db ≡ ok (none, db)
  unfolding authenticate_worker lock_credential lock_worker accepts
  revoked_is_refused {c} found gone = elim (Option-cases (find c.worker_id db.workers)) [
    | inl missing ↦ ground arith
    | inr (o, there) ↦ ground (arith, find-key c.worker_id o db.workers there)
  ]

module _ (i : Key) (actor reason : String) (e : Env) (db : Db) where
  revoked_now :
      {db' : Db}
      → revoke_credential i actor reason e db ≡ ok (tt, db')
      → (c : WorkerCredential) × (find i db'.credentials ≡ some c) × (is_some c.revoked_at ≡ true)
  unfolding revoke_credential validate_audit lock_credential lock_worker record_event
  revoked_now {db'} h = elim (Option-cases (find i db.credentials)) [
    | inl missing ↦ absurd (ground arith)
    | inr (c, found) ↦ elim (Option-cases (find c.worker_id db.workers)) [
      | inl missing ↦ absurd (ground arith)
      | inr (o, there) ↦ elim (Bool-cases (is_some c.revoked_at)) [
        | inl old ↦ (c, ground arith, old)
        | inr new ↦
            let r : WorkerCredential = record c { revoked_at = some e.now } in
            (
              r,
              ground (
                arith,
                find-key i c db.credentials found,
                find-key c.worker_id o db.workers there,
                find-save i r db.credentials,
              ),
              refl,
            )
      ]
    ]
  ]

  -- Once a revocation has returned, the credential's token lets nobody in, at any later time.
  pub revoke-authenticate :
      (token : Key) (e' : Env) {db' : Db}
      → revoke_credential i actor reason e db ≡ ok (tt, db')
      → authenticate_worker (some i) token e' db' ≡ ok (none, db')
  revoke-authenticate token e' {db'} h =
      let r = revoked_now h in revoked_is_refused i token e' db' r.1 r.2
