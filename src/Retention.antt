-- ===== src/Retention.antt =====
-- apps/api/app/artifact_retention.py: the expiry and the purge of the artifacts that share a file.
pub mod Records
pub mod Group
pub mod Guards
pub mod Purge
use dev_agent.Base.{
  ℕ, Key, Time, Bool, Option, none, some, List, [], ◌∷◌, ◌&&◌, not, nat_eq, leb, any, length,
  is_some, if◌then◌else◌, max, String,
}
use dev_agent.Models.{
  Db, WorkItem, Artifact, expiration_requested, artifact_purged, work_keyed, worker_keyed,
  job_keyed, console_keyed, artifact_keyed,
}
use dev_agent.Tx.{
  Tx, Env, Result, ok, err, Error, protected, invalid, lift, pure, require, for_each, ◌>>=◌, ◌>>◌,
}
use Group.{locked_group}
use Records.{change_artifact, Intent, intents, same_intents}

-- What the files say: `inspected` and `purged` are the answers of `inspect_file` and `purge_file`, or a
-- reason for failing.
pub record Files : Type 0 where
  pub inspected : Artifact → Result (Option Key)
  pub purged : Artifact → Result Bool

-- The first transaction: the file is purged already, or could be, or its expiry is on record.
pub data Prepared : Type 0 where
  already_purged : Prepared
  eligible : ℕ → Prepared
  intended : List Intent → Prepared

abbrev expired_row : Time → ℕ → Option Key → Artifact → Artifact
expired_row now days sha r = record r {
  expired_at = some now;
  retention_days = some days;
  retention_sha256 = sha;
}

unfoldable pub expired_rows : Time → ℕ → Option Key → List Artifact → List Artifact
expired_rows now days sha [] = []
expired_rows now days sha (r ∷ rs) = expired_row now days sha r ∷ expired_rows now days sha rs

abbrev request_expiry :
    WorkItem
    → (rows : List Artifact) → Time
    → ℕ
    → Option Key
    → (request_id : Key) → Option Time
    → Tx (List Artifact)
request_expiry work rows now days sha request_id (some t) = pure rows
request_expiry work rows now days sha request_id none = do
  let marked = expired_rows now days sha rows
  for_each marked (λ r. change_artifact work r expiration_requested request_id)
  pure marked

unfoldable pub prepare_purge :
    Files
    → (seen : Db) → Key
    → (days : ℕ) → (apply : Bool) → (now : Time) → (request_id : Key) → Tx Prepared
unfolding locked_group for_each expired_rows intents
prepare_purge files seen identity days apply now request_id = do
  (work, row, rows) ← locked_group seen identity days now
  if is_some row.purged_at then pure already_purged else (do
    sha ← lift (files.inspected row)
    if not apply then pure (eligible (length rows)) else (do
      marked ← request_expiry work rows now days sha request_id row.expired_at
      pure (intended (intents marked))))

-- The checks of the second transaction before the file is touched; none is a file that is purged.
unfoldable pub confirm_purge :
    (seen : Db)
    → Key
    → (days : ℕ) → (now : Time) → (expected : List Intent)
    → Tx (Option (WorkItem × Artifact × List Artifact))
unfolding locked_group intents
confirm_purge seen identity days now expected = do
  (work, row, rows) ← locked_group seen identity days now
  if is_some row.purged_at then pure none else (do
    require
        (not (any (λ r. not (is_some r.expired_at)) rows) && same_intents (intents rows) expected)
        (protected "expiration_intent_changed")
    pure (some (work, row, rows)))

abbrev purged_row : Time → Artifact → Artifact
purged_row t r = record r { purged_at = some t }

unfoldable pub record_purge : WorkItem → List Artifact → Time → (request_id : Key) → Tx (Unit {0})
unfolding for_each
record_purge work rows completed_at request_id =
    for_each rows (λ r. change_artifact work (purged_row completed_at r) artifact_purged request_id)

-- `RetentionResult`
pub data RetentionResult : Type 0 where
  was_purged : RetentionResult
  can_be_purged : ℕ → RetentionResult
  purged_now : (bytes_removed : ℕ) → RetentionResult
  kept_safe : (reason : String) → RetentionResult
  failed_with : Error → RetentionResult

-- A run: its result, the database after it, and the file that it had removed, with the database under
-- whose locks that was.
pub record Expiry : Type 0 where
  pub result : RetentionResult
  pub db : Db
  pub touched : Option (Db × WorkItem × List Artifact)

abbrev refused : Error → RetentionResult
refused x = elim x [ protected reason ↦ kept_safe reason | other ↦ failed_with other ]

-- `seen` and `meanwhile` are the databases that the second transaction reads before it has its locks,
-- and starts from; `finished` is the environment at its end.
pub record Between : Type 0 where
  pub first_seen : Db
  pub seen : Db
  pub meanwhile : Db → Db
  pub started : Env
  pub finished : Env

abbrev pub after_purge :
    Between → Time → Key → WorkItem → Artifact → List Artifact → Db → Result Bool → Expiry
after_purge b now request_id work row rows db (err x) = record {
  result = refused x;
  db = db;
  touched = some (db, work, rows);
}
after_purge b now request_id work row rows db (ok removed) =
    elim (record_purge work rows (max now b.finished.now) request_id b.finished db) [
      | ok (u, db') ↦ record {
        result = purged_now (if removed then row.size_bytes else 0);
        db = db';
        touched = some (db, work, rows);
      }
      | err x ↦ record { result = refused x; db = db; touched = some (db, work, rows) }
    ]

abbrev pub second_phase :
    Files
    → Between
    → Time
    → Key
    → Db
    → Result ((Option (WorkItem × Artifact × List Artifact)) × Db)
    → Expiry
second_phase files b now request_id db (err x) = record {
  result = refused x;
  db = db;
  touched = none;
}
second_phase files b now request_id db (ok (none, db')) = record {
  result = was_purged;
  db = db';
  touched = none;
}
second_phase files b now request_id db (ok (some (work, row, rows), db')) =
    after_purge b now request_id work row rows db' (files.purged row)

abbrev pub first_phase :
    Files → Between → Key → ℕ → Time → Key → Db → Result (Prepared × Db) → Expiry
first_phase files b identity days now request_id db (err x) = record {
  result = refused x;
  db = db;
  touched = none;
}
first_phase files b identity days now request_id db (ok (already_purged, db')) = record {
  result = was_purged;
  db = db';
  touched = none;
}
first_phase files b identity days now request_id db (ok (eligible n, db')) = record {
  result = can_be_purged n;
  db = db';
  touched = none;
}
first_phase files b identity days now request_id db (ok (intended expected, db')) =
    let db2 = b.meanwhile db' in
    second_phase files b now request_id db2
      (confirm_purge b.seen identity days now expected b.started db2)

-- `expire_artifact`; `policy_days` is the bound on the days.
unfoldable pub expire_artifact :
    Files → Between → Key → (days : ℕ) → (apply : Bool) → (request_id : Key) → Db → Result Expiry
unfolding prepare_purge confirm_purge record_purge
expire_artifact files b identity days apply request_id db =
    if leb 1 days && leb days 36500
    then ok (
        first_phase files b identity days b.started.now request_id db (
          prepare_purge files b.first_seen identity days apply b.started.now request_id b.started
            db))
    else err (invalid "retention days must be between 1 and 36500")
