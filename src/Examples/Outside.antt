-- ===== src/Examples/Outside.antt =====
-- The theorems on the runner and on the retention of artifacts, at small runs.
use dev_agent.Base.{ℕ, none, some, Option, [], ◌∷◌, true, refl, ◌≡◌}
use dev_agent.Models.{
  Db, Artifact, analyzing, implementing, verifying, provisioning, awaiting_approval, completed,
  committing,
}
use dev_agent.Examples.{db, work}
use dev_agent.Retention.{Files, Between, Expiry, expire_artifact, purged_now}
use dev_agent.Retention.Purge.{Purgeable, expire_artifact-Purgeable}
use dev_agent.Runner.{Turn, bootstrapping, Answers, run}
use dev_agent.Runner.Control.{Assignment, shown, conflict, lost, saw, asked, answered, Round}
use dev_agent.Runner.Steps.{follows}
use dev_agent.Runner.Walk.{run-follows}
use dev_agent.Tx.{Env, ok, Result}

abbrev assignment : Assignment
assignment = record { id = 12; version = 3; replan_limit = 1 }

abbrev silent : Round
silent = record { work = lost; failing = lost }

abbrev turn : Option ℕ → Turn
turn v = record {
  returns = true;
  verifying_version = v;
  passed = some true;
  delivered = true;
  next_version = some 6;
}

-- A run whose first verification passes, and which ends when the delivery begins.
abbrev answers : Answers
answers = record {
  booting = record {
    work = shown (record { id = 12; status = provisioning; version = 2 });
    transitioned = conflict;
    reread = shown (record { id = 12; status = analyzing; version = 3 });
  };
  cloned = true;
  ready = some 4;
  started = true;
  turns = turn (some 5) ∷ [];
  polls =
      some (record {
        status = committing;
        version = 7;
        turn = turn none;
        repairs = [];
        exhausted = none;
        announced = true;
      })
      ∷ [];
  first_failing = silent;
  second_failing = silent;
}

run-follows_example : follows analyzing 3 (run bootstrapping assignment answers) ≡ true
run-follows_example = run-follows assignment answers bootstrapping

runs :
    run bootstrapping assignment answers
    ≡ saw provisioning 2
      ∷ asked 2 analyzing
      ∷ saw analyzing 3
      ∷ asked 3 implementing
      ∷ answered 4
      ∷ asked 4 verifying
      ∷ answered 5
      ∷ asked 5 awaiting_approval
      ∷ answered 6
      ∷ saw committing 7
      ∷ []
unfolding run
runs = refl

abbrev artifact : Artifact
artifact = record {
  id = 40;
  work_item_id = 11;
  kind = 41;
  name = 42;
  content_type = 43;
  object_key = 44;
  size_bytes = 45;
  created_at = 20;
  expired_at = none;
  purged_at = none;
  retention_days = none;
  retention_sha256 = none;
}

abbrev old_db : Db
old_db = record db { works = work 11 completed 6 none ∷ []; artifacts = artifact ∷ []; leases = [] }

abbrev files : Files
files = record { inspected = λ r. ok (some 46); purged = λ r. ok true }

abbrev two_days_on : Env
two_days_on = record {
  now = 200000;
  request_id = 79;
  hash_token = λ t. t;
  text_length = λ k. 20;
  source_ip = none;
}

abbrev between : Between
between = record {
  first_seen = old_db;
  seen = old_db;
  meanwhile = λ d. d;
  started = two_days_on;
  finished = two_days_on;
}

abbrev expired_alias : Artifact
expired_alias = record artifact {
  expired_at = some 200000;
  retention_days = some 1;
  retention_sha256 = some 46;
}

abbrev expiry_of : Result Expiry → Expiry
expiry_of (ok x) = x
expiry_of other = record { result = purged_now 0; db = db; touched = none }

abbrev expiry : Expiry
expiry = expiry_of (expire_artifact files between 40 1 true 80 old_db)

abbrev emptied : Db
emptied = elim expiry.touched [ none ↦ db | some (d, w, rows) ↦ d ]

expire_artifact-Purgeable_example :
    Purgeable files between 40 1 80 old_db true emptied
      (work 11 completed 6 none)
      (expired_alias ∷ [])
unfolding expire_artifact dev_agent.Base.Table.find dev_agent.Base.Table.Rows.first
    dev_agent.Retention.Group.by_id dev_agent.Audit.add_audit dev_agent.Base.Table.save
expire_artifact-Purgeable_example =
    expire_artifact-Purgeable files between 40 1 80 old_db true {x = expiry} refl refl
