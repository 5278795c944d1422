-- ===== src/Credentials.antt =====
-- apps/api/app/worker_credentials.py: what names a worker, and who may speak for it.
pub mod Access
pub mod Rotation
use Prim.Native.String.{[] as nothing, ◌∷◌ as char_cons, count}
use Prim.Native.Char.{code}
use dev_agent.Base.{
  ℕ, suc, ◌+◌, ◌*◌, Key, Time, Bool, true, false, Option, none, some, List, [], ◌∷◌, ◌&&◌, ◌||◌,
  not, String, min, length, nat_beq, leb, is_some, if◌then◌else◌,
}
use dev_agent.Base.Table.{find, save}
use dev_agent.Models.{
  WorkerHost, WorkerCredential, WorkerCredentialEvent, CredentialAction, issued, rotated, revoked,
  offline, end, worker_keyed, credential_keyed,
}
use dev_agent.Tx.{Tx, ok, err, invalid, pure, require, or_raise, reads, asks, modify, ◌>>=◌, ◌>>◌}

-- `str.isspace` of one character.
unfoldable pub is_space : ℕ → Bool
is_space c =
    (leb 9 c && leb c 13)
    || (leb 28 c && leb c 32)
    || nat_beq c 133
    || nat_beq c 160
    || nat_beq c 5760
    || (leb 8192 c && leb c 8202)
    || nat_beq c 8232
    || nat_beq c 8233
    || nat_beq c 8239
    || nat_beq c 8287
    || nat_beq c 12288

-- `not text.strip()`
unfoldable pub is_blank : String → Bool
unfolding is_space
is_blank String.[] = true
is_blank (String.◌∷◌ c s) = is_space (code c) && is_blank s

unfoldable pub validate_audit : String → String → Tx (Unit {0})
unfolding is_blank
validate_audit actor reason =
    require
      (not (is_blank actor)
        && leb (count actor) 255
        && not (is_blank reason)
        && leb (count reason) 500)
      (invalid "credential management requires a bounded actor and reason")

abbrev pub max_lifetime_seconds : ℕ
max_lifetime_seconds = 90 * 86400

unfoldable pub validate_lifetime : ℕ → Tx (Unit {0})
validate_lifetime seconds =
    require (leb 60 seconds && leb seconds max_lifetime_seconds)
      (invalid "credential lifetime must be between 60 seconds and 90 days")

unfoldable pub lock_worker : Key → Tx WorkerHost
lock_worker i e db = or_raise (find i db.workers) (invalid "worker not found") e db

-- The worker of the credential is locked first, and the credential read again under that lock.
unfoldable pub lock_credential : Key → Tx (WorkerHost × WorkerCredential)
unfolding lock_worker
lock_credential credential_id = do
  first ←
      or_raise (← reads (λ db. find credential_id db.credentials)) (invalid "credential not found")
  worker ← lock_worker first.worker_id
  credential ←
      or_raise (← reads (λ db. find credential_id db.credentials)) (invalid "credential not found")
  require (nat_beq credential.worker_id worker.id) (invalid "credential not found")
  pure (worker, credential)

-- The tests that a presented token passes.
unfoldable pub accepts : WorkerHost → WorkerCredential → Key → Time → Bool
accepts worker credential digest now =
    not (is_some worker.quarantined_at)
    && not (is_some credential.revoked_at)
    && not (leb credential.expires_at now)
    && nat_beq credential.token_hash digest

-- `token` is a text of the form of `TOKEN_PATTERN` with the credential's id in it; of any other
-- text the id is `none`.
unfoldable pub authenticate_worker : Option Key → Key → Tx (Option WorkerHost)
unfolding lock_credential accepts
authenticate_worker none token e db = ok (none, db)
authenticate_worker (some credential_id) token e db = elim (lock_credential credential_id e db) [
  | err x ↦ ok (none, db)
  | ok (locked, db') ↦
      if accepts locked.0 locked.1 (e.hash_token token) e.now
      then ok (
        some locked.0,
        record db' {
          credentials = save (record (locked.1) { last_used_at = some e.now }) db'.credentials;
        },
      )
      else ok (none, db')
]

unfoldable pub record_event : Key → Option Key → CredentialAction → String → String → Tx (Unit {0})
record_event worker_id credential_id action actor reason e db =
    let row : WorkerCredentialEvent = record {
      id = suc (length db.credential_events);
      worker_id = worker_id;
      credential_id = credential_id;
      action = action;
      actor = actor;
      reason = reason;
      created_at = e.now;
    } in
    ok (tt, record db { credential_events = row ∷ db.credential_events })

-- What `uuid.uuid4` and `secrets.token_hex` draw for a new credential.
pub record Minted : Type 0 where
  pub identifier : Key
  pub token : Key

pub record IssuedCredential : Type 0 where
  pub worker_id : Key
  pub credential_id : Key
  pub token : Key
  pub expires_at : Time

unfoldable pub mint :
    WorkerHost → String → String → ℕ → CredentialAction → Minted → Tx IssuedCredential
unfolding record_event
mint worker actor reason lifetime_seconds action drawn = do
  require (not (is_some worker.quarantined_at))
      (invalid "quarantined workers cannot receive credentials")
  now ← asks (λ e. e.now)
  hash ← asks (λ e. e.hash_token drawn.token)
  let expires_at = now + lifetime_seconds
  let credential : WorkerCredential = record {
    id = drawn.identifier;
    worker_id = worker.id;
    token_hash = hash;
    expires_at = expires_at;
    revoked_at = none;
    last_used_at = none;
    created_at = now;
  }
  modify (λ db. record db {
    workers = save (record worker { credential_required = true }) db.workers;
    credentials = credential ∷ db.credentials;
  })
  record_event worker.id (some credential.id) action actor reason
  pure (record {
    worker_id = worker.id;
    credential_id = credential.id;
    token = drawn.token;
    expires_at = expires_at;
  })

-- The query by name of `issue_credential`.
unfoldable pub find_named : Key → List WorkerHost → Option WorkerHost
find_named n [] = none
find_named n (w ∷ ws) = if nat_beq w.name n then some w else find_named n ws

unfoldable pub blank_worker : Key → Key → Time → WorkerHost
blank_worker id name now = record {
  id = id;
  name = name;
  credential_required = false;
  quarantined_at = none;
  state = offline;
  cpu_total = 0;
  cpu_available = 0;
  memory_mb_total = 0;
  memory_mb_available = 0;
  disk_gb_available = 0;
  active_runs = 0;
  labels = end;
  last_seen_at = now;
  created_at = now;
}

unfoldable pub named_worker : Key → Key → Tx WorkerHost
unfolding find_named blank_worker
named_worker name fresh_id e db = elim (find_named name db.workers) [
  | some w ↦ ok (w, db)
  | none ↦
      let w = blank_worker fresh_id name e.now in ok (w, record db { workers = w ∷ db.workers })
]

-- `any(ord(character) < 32 for character in text)`
unfoldable pub has_control : String → Bool
has_control String.[] = false
has_control (String.◌∷◌ c s) = not (leb 32 (code c)) || has_control s

unfoldable pub valid_worker_name : String → Bool
unfolding is_blank has_control
valid_worker_name n = not (is_blank n) && leb (count n) 255 && not (has_control n)

-- The worker's name comes as the text that is checked and as the key that is stored.
unfoldable pub issue_credential :
    String → Key → Key → String → String → ℕ → Minted → Tx IssuedCredential
unfolding validate_audit validate_lifetime valid_worker_name named_worker mint
issue_credential spelling name fresh_id actor reason lifetime_seconds drawn = do
  validate_audit actor reason
  validate_lifetime lifetime_seconds
  require (valid_worker_name spelling) (invalid "invalid worker name")
  worker ← named_worker name fresh_id
  mint worker actor reason lifetime_seconds issued drawn

unfoldable pub rotate_credential :
    Key → String → String → ℕ → (overlap_seconds : ℕ) → Minted → Tx IssuedCredential
unfolding validate_audit validate_lifetime lock_credential mint
rotate_credential credential_id actor reason lifetime_seconds overlap_seconds drawn = do
  validate_audit actor reason
  validate_lifetime lifetime_seconds
  require (leb 60 overlap_seconds && leb overlap_seconds 3600)
      (invalid "rotation overlap must be between 60 and 3600 seconds")
  (worker, previous) ← lock_credential credential_id
  now ← asks (λ e. e.now)
  require (not (is_some previous.revoked_at) && not (leb previous.expires_at now))
      (invalid "only an active credential can be rotated")
  result ← mint worker actor reason lifetime_seconds rotated drawn
  modify (λ db. record db {
    credentials =
        save (record previous { expires_at = min previous.expires_at (now + overlap_seconds) })
          db.credentials;
  })
  pure result

unfoldable pub revoke_credential : Key → String → String → Tx (Unit {0})
unfolding validate_audit lock_credential record_event
revoke_credential credential_id actor reason = do
  validate_audit actor reason
  (worker, credential) ← lock_credential credential_id
  if is_some credential.revoked_at then pure tt else (do
    now ← asks (λ e. e.now)
    modify (λ db. record db {
      credentials = save (record credential { revoked_at = some now }) db.credentials;
    })
    record_event worker.id (some credential.id) revoked actor reason)
