-- ===== src/Credentials/Rotation.antt =====
-- The lifetimes of the credentials around `rotate_credential` (apps/api/app/worker_credentials.py).
use dev_agent.Base.{
  ℕ, ◌+◌, ◌≤◌, ◌<◌, ◌≡◌, ◌≢◌, refl, Key, none, some, List, ◌∷◌, arith, min, Option-cases, inl, inr,
  String,
}
use dev_agent.Base.Table.{find, save, find-key, find-save}
use dev_agent.Models.{Db, WorkerHost, WorkerCredential, worker_keyed, credential_keyed}
use dev_agent.Credentials.{
  rotate_credential, mint, lock_credential, lock_worker, validate_audit, validate_lifetime,
  record_event, Minted, IssuedCredential, max_lifetime_seconds,
}
use dev_agent.Tx.{Env, ok}

-- The credentials after a rotation: the old one and the new one.
pub record Rotated (i : Key) (drawn : Minted) (e : Env) (db : Db) (c : IssuedCredential) (db' : Db)
    : Type 0 where
  pub previous : WorkerCredential
  pub worker : WorkerHost
  pub found : find i db.credentials ≡ some previous
  pub of_worker : find previous.worker_id db.workers ≡ some worker
  pub not_quarantined : worker.quarantined_at ≡ none
  pub was_live : (previous.revoked_at ≡ none) × (e.now < previous.expires_at)
  pub same_worker : c.worker_id ≡ previous.worker_id
  pub lifetime : (e.now + 60 ≤ c.expires_at) × (c.expires_at ≤ e.now + max_lifetime_seconds)
  pub shortened : WorkerCredential
  pub old_row : find i db'.credentials ≡ some shortened
  pub overlap : (shortened.expires_at ≤ e.now + 3600) × (shortened.expires_at ≤ previous.expires_at)
  pub new_row :
      (n : WorkerCredential) × (find c.credential_id db'.credentials ≡ some n)
      × (n.token_hash ≡ e.hash_token c.token)
      × (n.expires_at ≡ c.expires_at)

-- The two rows in the table after the rotation.
old_found :
    (i k : Key) (short p n : WorkerCredential) (t : List WorkerCredential)
    → k ≢ i
    → n.id ≡ k
    → short.id ≡ i
    → find i t ≡ some p
    → find i (save short (n ∷ t)) ≡ some short
unfolding find save
old_found i k short p n t fresh new old there = ground (arith, find-save i short t)

new_found :
    (i : Key) (short n : WorkerCredential) (t : List WorkerCredential)
    → n.id ≢ i
    → short.id ≡ i
    → find n.id (save short (n ∷ t)) ≡ some n
unfolding find save
new_found i short n t fresh old = ground arith

module _ (i : Key) (actor reason : String) (lifetime overlap : ℕ) (drawn : Minted) (e : Env)
    (db : Db) where
  -- A rotation that returns was of a live credential of a worker that is not quarantined. The new
  -- credential, of the same worker, lives for between a minute and 90 days; the old one lives for
  -- at most an hour more, and never longer than before. (The new credential's id is a new one.)
  pub rotate-Rotated :
      {c : IssuedCredential} {db' : Db}
      → drawn.identifier ≢ i
      → rotate_credential i actor reason lifetime overlap drawn e db ≡ ok (c, db')
      → Rotated i drawn e db c db'
  unfolding rotate_credential validate_audit validate_lifetime lock_credential lock_worker mint
      record_event
  rotate-Rotated {c} {db'} fresh h = elim (Option-cases (find i db.credentials)) [
    | inl missing ↦ absurd (ground arith)
    | inr (p, found) ↦ elim (Option-cases (find p.worker_id db.workers)) [
      | inl missing ↦ absurd (ground arith)
      | inr (w, there) ↦
          let own = find-key p.worker_id w db.workers there in
          let id = find-key i p db.credentials found in
          let short : WorkerCredential = record p {
            expires_at = min p.expires_at (e.now + overlap);
          } in
          let n : WorkerCredential = record {
            id = drawn.identifier;
            worker_id = w.id;
            token_hash = e.hash_token drawn.token;
            expires_at = e.now + lifetime;
            revoked_at = none;
            last_used_at = none;
            created_at = e.now;
          } in
          let stored : db'.credentials ≡ save short (n ∷ db.credentials) = ground (arith, own) in
          let named : (c.credential_id ≡ drawn.identifier)
              × (c.token ≡ drawn.token)
              × (c.expires_at ≡ e.now + lifetime) =
            (ground (arith, own), ground (arith, own), ground (arith, own)) in
          record {
            previous = p;
            worker = w;
            found = found;
            of_worker = there;
            not_quarantined = ground (arith, own);
            was_live = (ground (arith, own), ground (arith, own));
            same_worker = ground (arith, own);
            lifetime = (ground (arith, own), ground (arith, own));
            shortened = short;
            old_row =
                rw stored
                  (old_found i drawn.identifier short p n db.credentials fresh refl id found);
            overlap = (ground (arith, own), ground arith);
            new_row = (
              n,
              rw stored (rw named.0 (new_found i short n db.credentials fresh id)),
              rw named.1 refl,
              ground (arith, named.2),
            );
          }
    ]
  ]
