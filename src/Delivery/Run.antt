-- ===== src/Delivery/Run.antt =====
-- An attempt of apps/api/app/delivery.py between its transactions: what `_deliver_work` keeps in its
-- variables, the calls of Git and GitHub, and the exceptions that leave them.
use dev_agent.Base.{ℕ, Key, Bool, Option, none, some, String, List, ◌∷◌, if◌then◌else◌}
use dev_agent.Models.{Db}
use dev_agent.Tx.{Env, Tx, ok, err, Result}
use dev_agent.Delivery.{guard_delivery_write}
use dev_agent.Delivery.Stages.{Stage, Failure, timed_out, of_error, is_write}

-- The transactions of an attempt: those of a stage, the one of the handler,
-- the audit of a stop, and the recovery after a restart.
pub data Moment : Type 0 where
  during : Stage → Moment
  failing stopping recovering : Moment

-- What the attempt meets outside: `meanwhile` is what other transactions make of the database
-- before a transaction gets its locks, `seen` the database when it read the worker's id. `answer` is
-- how the calls of a stage end, `snapshot` and `cleanup` how `write_bundle_snapshot` and the removal of
-- the workspace do.
pub record Outside : Type 0 where
  pub is_digest : Key → Bool
  pub pull_request_number : Key → Option ℕ
  pub spell : Key → String
  pub env : Moment → Env
  pub meanwhile : Moment → Db → Db
  pub seen : Moment → Db
  pub late : Stage → Bool
  pub answer : Stage → Option Failure
  pub snapshot : Option Failure
  pub cleanup : Option Failure
  pub found : Option Key
  pub branch : Bool
  pub created : Key

-- A write to GitHub, by its stage, and the database under whose locks it is started, if it is under any.
pub record Write : Type 0 where
  pub stage : Stage
  pub under : Option Db

-- `held` is the database under the locks of `guard_delivery_write`, inside its block.
pub record Run : Type 0 where
  pub db : Db
  pub held : Option Db
  pub stage : Stage
  pub publication : String
  pub url : Option Key
  pub writes : List Write

pub data Step (A : Type 0) : Type 0 where
  went : A → Run → Step A
  raised : Failure → Run → Step A

abbrev pub Do : Type 0 → Type 0
Do A = Run → Step A

infixl 5 ◌>>=◌ ◌>>◌
unfoldable pub ◌>>=◌ : {A B : Type 0} → Do A → (A → Do B) → Do B
◌>>=◌ m f r = elim (m r) [ went a r' ↦ f a r' | raised x r' ↦ raised x r' ]

abbrev pub ◌>>◌ : {A B : Type 0} → Do A → Do B → Do B
m >> k = m >>= λ _. k

abbrev pub return : {A : Type 0} → A → Do A
return a r = went a r

abbrev pub enter : Stage → Do (Unit {0})
enter s r = went tt (record r { stage = s })

-- A call of a file, a command or GitHub.
abbrev pub answered : Option Failure → Do (Unit {0})
answered none r = went tt r
answered (some x) r = raised x r

-- A call that writes to GitHub is put on record, whatever it answers, and wherever it stands.
abbrev pub noted : Run → Run
noted r = record r {
  writes =
      if is_write r.stage
      then (record { stage = r.stage; under = r.held }) ∷ r.writes
      else r.writes;
}

unfoldable pub call : Outside → Do (Unit {0})
call o r = answered (o.answer r.stage) (noted r)

abbrev pub ended : {A : Type 0} → Run → Db → Result (A × Db) → Step A
ended r db (ok (a, db')) = went a (record r { db = db' })
ended r db (err x) = raised (of_error x) (record r { db = db })

-- A transaction that commits at its end.
unfoldable pub commits : {A : Type 0} → Outside → Moment → Tx A → Do A
commits o m t r = let db = o.meanwhile m r.db in ended r db (t (o.env m) db)

-- The end of the block: the session is closed, and its locks are gone.
abbrev pub unlocked : {A : Type 0} → Step A → Step A
unlocked (went a r) = went a (record r { held = none })
unlocked (raised x r) = raised x (record r { held = none })

abbrev pub entered : {A : Type 0} → Do A → Run → Db → Result ((Unit {0}) × Db) → Step A
entered m r db (ok (u, db')) = unlocked (m (record r { db = db'; held = some db' }))
entered m r db (err x) = raised (of_error x) (record r { db = db })

-- `async with guard_delivery_write(...)` around `m`; the session is not committed. `late` is
-- the timeout that expires before the locks are granted.
unfoldable pub guarded : {A : Type 0} → Outside → Key → (approval_audit_id : ℕ) → Do A → Do A
unfolding guard_delivery_write
guarded o i approval_audit_id m r =
    let db = o.meanwhile (during r.stage) r.db in
    if o.late r.stage
    then raised timed_out (record r { db = db })
    else entered m r db (
        guard_delivery_write o.is_digest (o.seen (during r.stage)) i approval_audit_id
          (o.env (during r.stage)) db)

-- `try: m finally: temporary.cleanup()`: the failure of the cleanup is the one that is raised.
abbrev pub cleaned : {A : Type 0} → Option Failure → Step A → Step A
cleaned none s = s
cleaned (some y) (went a r) = raised y r
cleaned (some y) (raised x r) = raised y r

unfoldable pub with_cleanup : {A : Type 0} → Outside → Do A → Do A
with_cleanup o m r = cleaned o.cleanup (m r)
