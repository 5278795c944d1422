-- ===== src/Delivery/Triple.antt =====
-- What holds of the writes before, after and at the failure of the steps of an attempt
-- (apps/api/app/delivery.py, `_deliver_work`).
use dev_agent.Base.{
  ◌≡◌, sym, subst, true, false, Key, ℕ, Option, none, some, List, ◌∷◌, inl, inr, Bool-cases,
}
use dev_agent.Models.{Db}
use dev_agent.Tx.{Tx, ok, err, Result, Result-cases}
use dev_agent.Delivery.{guard_delivery_write}
use dev_agent.Delivery.Stages.{Stage, Failure, is_write}
use dev_agent.Delivery.Publish.{stage_call, stage_write}
use dev_agent.Delivery.Run.{
  Run, Outside, Write, Step, went, raised, Do, Moment, during, ◌>>=◌, call, commits, guarded, ended,
  answered, noted, unlocked, cleaned, with_cleanup,
}
use dev_agent.Delivery.Guard.{Permitted, guard_ok}

-- A predicate on the writes so far.
abbrev pub Log : Type 1
Log = List Write → Type 0

abbrev pub Meets : {A : Type 0} → Log → (A → Log) → Step A → Type 0
Meets bad good (went a r) = good a r.writes
Meets bad good (raised x r) = bad r.writes

-- From `before`, `m` comes to `good`, or fails in `bad`.
pub record Triple {A : Type 0} (bad before : Log) (m : Do A) (good : A → Log) : Type 0 where
  pub holds : (r : Run) → before r.writes → Meets bad good (m r)

module _ {A B : Type 0} (bad : Log) (middle : A → Log) (good : B → Log) where
  bind_step :
      (f : A → Do B)
      → ((a : A) → Triple bad (middle a) (f a) good)
      → (s : Step A) → Meets bad middle s
      → Meets bad good (elim s [ went a r' ↦ f a r' | raised x r' ↦ raised x r' ])
  bind_step f next (went a r) h = (next a).holds r h
  bind_step f next (raised x r) h = h

module _ {A B : Type 0} {bad before : Log} {middle : A → Log} {good : B → Log} where
  pub Triple-bind :
      {m : Do A} {f : A → Do B}
      → Triple bad before m middle
      → ((a : A) → Triple bad (middle a) (f a) good)
      → Triple bad before (m >>= f) good
  unfolding ◌>>=◌
  Triple-bind {m} {f} first next = record {
    holds = λ r h. bind_step bad middle good f next (m r) (first.holds r h);
  }

module _ (bad inv : Log) where
  answered_meets :
      (a : Option Failure) (r : Run)
      → (inv r.writes → bad r.writes)
      → inv r.writes
      → Meets bad (λ u. inv) (answered a r)
  answered_meets none r fails h = h
  answered_meets (some x) r fails h = fails h

  ended_meets :
      {A : Type 0} (db : Db) (t : Result (A × Db)) (r : Run)
      → (inv r.writes → bad r.writes)
      → inv r.writes
      → Meets bad (λ a. inv) (ended r db t)
  ended_meets db (ok (a, db')) r fails h = h
  ended_meets db (err x) r fails h = fails h

  cleaned_meets :
      {A : Type 0} (c : Option Failure) (s : Step A)
      → ((ws : List Write) → inv ws → bad ws)
      → Meets bad (λ a. inv) s
      → Meets bad (λ a. inv) (cleaned c s)
  cleaned_meets none s fails h = h
  cleaned_meets (some y) (went a r) fails h = fails r.writes h
  cleaned_meets (some y) (raised x r) fails h = h

  unlocked_meets :
      {A : Type 0} (s : Step A) → Meets bad (λ a. inv) s → Meets bad (λ a. inv) (unlocked s)
  unlocked_meets (went a r) h = h
  unlocked_meets (raised x r) h = h

module _ {bad inv : Log} (fails : (ws : List Write) → inv ws → bad ws) where
  pub answered-Triple : (a : Option Failure) → Triple bad inv (answered a) (λ u. inv)
  answered-Triple a = record { holds = λ r h. answered_meets bad inv a r (fails r.writes) h }

  -- A call of a stage that does not write leaves the record of the writes alone.
  pub stage_call-Triple :
      (o : Outside) (s : Stage) → is_write s ≡ false → Triple bad inv (stage_call o s) (λ u. inv)
  unfolding stage_call call ◌>>=◌
  stage_call-Triple o s quiet = record {
    holds = λ r h.
        let r' = noted (record r { stage = s }) in
        answered_meets bad inv (o.answer s) r' (fails r'.writes) (rw quiet h);
  }

  pub commits-Triple :
      {A : Type 0} (o : Outside) (m : Moment) (t : Tx A) → Triple bad inv (commits o m t) (λ a. inv)
  unfolding commits
  commits-Triple o m t = record {
    holds = λ r h.
        let db = o.meanwhile m r.db in ended_meets bad inv db (t (o.env m) db) r (fails r.writes) h;
  }

  pub with_cleanup-Triple :
      {A : Type 0} {before : Log} (o : Outside) {m : Do A}
      → Triple bad before m (λ a. inv)
      → Triple bad before (with_cleanup o m) (λ a. inv)
  unfolding with_cleanup
  with_cleanup-Triple o {m} t = record {
    holds = λ r h. cleaned_meets bad inv o.cleanup (m r) fails (t.holds r h);
  }

-- A write is started only where the guard passes, in the state that it locks.
module _ (o : Outside) (i : Key) (a : ℕ) (s : Stage) {bad before after : Log} where
  pub stage_write-Triple :
      is_write s ≡ true
      → ((ws : List Write) → before ws → bad ws)
      → ((ws : List Write) → after ws → bad ws)
      → ((ws : List Write) (db : Db)
          → Permitted o.is_digest i a db
          → before ws
          → after ((record { stage = s; under = some db }) ∷ ws))
      → Triple bad before (stage_write o i a s) (λ u. after)
  unfolding stage_write guarded ◌>>=◌ call
  stage_write-Triple writes fails called wrote = record {
    holds = λ r h.
        let db = o.meanwhile (during s) r.db in
        let g = guard_delivery_write o.is_digest (o.seen (during s)) i a (o.env (during s)) db in
        elim (Bool-cases (o.late s)) [
          | inl hit ↦ rw hit (fails r.writes h)
          | inr on_time ↦ elim (Result-cases g) [
            | inl (x, miss) ↦ rw on_time (rw miss (fails r.writes h))
            | inr ((u, db'), good) ↦
                let p = guard_ok o.is_digest (o.seen (during s)) i a (o.env (during s)) db good in
                let here : Permitted o.is_digest i a db' =
                  subst (λ d. Permitted o.is_digest i a d) (sym p.1) p.0 in
                let r' = noted (record r { stage = s; db = db'; held = some db' }) in
                rw on_time (
                  rw good (
                    unlocked_meets bad after (answered (o.answer s) r') (
                      answered_meets bad after (o.answer s) r' (called r'.writes)
                        (rw writes (wrote r.writes db' here h)))))
          ]
        ];
  }
