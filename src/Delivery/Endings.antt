-- ===== src/Delivery/Endings.antt =====
-- What each ending of an attempt leaves (apps/api/app/delivery.py, `_deliver_work`).
use dev_agent.Base.{◌≡◌, refl, Key, ℕ, String, Bool, Option, none, some, arith, inl, inr}
use dev_agent.Models.{Db, completed, done}
use dev_agent.DeliveryAudit.{DeliveryAuthority}
use dev_agent.Tx.{Env, ok, err, Result, Result-cases}
use dev_agent.Delivery.{Started, Report, finalize_delivery, lock_delivery, is_running}
use dev_agent.Delivery.Stages.{finalize}
use dev_agent.Delivery.Run.{Run, Outside, Step, went, raised, Do, ◌>>=◌, during, commits, ended}
use dev_agent.Delivery.Lock.{lock_ok}
use dev_agent.Delivery.Finalize.{Settled, complete_delivery-Settled}
use dev_agent.Delivery.Publish.{publish, publish_after, open_pull_request, finish, report}

-- What holds of the result and the state where a step goes through.
pub record Ends {A : Type 0} (m : Do A) (good : A → Run → Type 0) : Type 0 where
  pub holds : (r : Run) {a : A} {r' : Run} → m r ≡ went a r' → good a r'

-- A sequence that went through did so step by step.
module _ {A B : Type 0} (f : A → Do B) {b : B} {r' : Run} where
  went_step :
      (s : Step A)
      → (elim s [ went a r1 ↦ f a r1 | raised x r1 ↦ raised x r1 ]) ≡ went b r'
      → (a : A) × (r1 : Run) × (s ≡ went a r1) × (f a r1 ≡ went b r')
  went_step (went a r1) h = (a, r1, refl, h)
  went_step (raised x r1) h = absurd (ground arith)

module _ {A B : Type 0} {f : A → Do B} {good : B → Run → Type 0} where
  ends_bind :
      {m : Do A} {middle : A → Type 0}
      → Ends m (λ a r. middle a)
      → ((a : A) → middle a → Ends (f a) good)
      → Ends (m >>= f) good
  unfolding ◌>>=◌
  ends_bind {m} first next = record {
    holds = λ r h. let x = went_step f (m r) h in (next x.0 (first.holds r x.2)).holds x.1 x.3;
  }

  ends_after : (m : Do A) → ((a : A) → Ends (f a) good) → Ends (m >>= f) good
  ends_after m next =
      ends_bind {middle = λ a. Unit {0}} (record { holds = λ r h. tt }) (λ a u. next a)

module _ (is_digest : Key → Bool) (seen : Db) (i : Key) (spell : Key → String)
    (a : DeliveryAuthority) (url : Key) (r : Report) (e : Env) (db : Db) where
  finalize-Settled :
      {db' : Db}
      → finalize_delivery is_digest seen i spell a url r e db ≡ ok (tt, db')
      → Settled i completed done (some url) db'
  unfolding finalize_delivery
  finalize-Settled {db'} h = elim (Result-cases (lock_delivery seen i is_running e db)) [
    | inl (x, miss) ↦ absurd (ground arith)
    | inr (((work, job), db1), good) ↦
        let l = lock_ok seen i is_running e db good in
        complete_delivery-Settled spell i work job url r e db l.0.found_work l.0.found_job
          (ground (arith, l.1))
  ]

-- The pull request of an attempt: the one that was found, or the one that it opened.
abbrev pub published_url : Outside → Option Key → Key
published_url o none = o.created
published_url o (some u) = u

module _ (o : Outside) (i : Key) (request_id : Key) (s : Started) where
  open_pull_request_url :
      (a : ℕ) (u : Option Key) → Ends (open_pull_request o i a u) (λ url r. url ≡ published_url o u)
  unfolding open_pull_request
  open_pull_request_url a (some u) = record { holds = λ r h. ground arith }
  open_pull_request_url a none =
      ends_after _ (λ u. ends_after _ (λ v. record { holds = λ r h. ground arith }))

  ended_ok :
      {A : Type 0} (r : Run) (db : Db) (x : Result (A × Db)) {a : A} {r' : Run}
      → ended r db x ≡ went a r'
      → x ≡ ok (a, r'.db)
  ended_ok r db (ok (a, db')) h = ground arith
  ended_ok r db (err x) h = absurd (ground arith)

  finish-Settled :
      (url : Key)
      → Ends (finish o i request_id s url) (λ u r. Settled i completed done (some url) r.db)
  unfolding finish commits
  finish-Settled url = record {
    holds = λ r h.
        let db = o.meanwhile (during finalize) r.db in
        finalize-Settled o.is_digest (o.seen (during finalize)) i o.spell s.authority url
          (report o request_id s r) (o.env (during finalize)) db (ended_ok r db _ h);
  }

  abbrev Published : Unit {0} → Run → Type 0
  Published u r = Settled i completed done (some (published_url o o.found)) r.db

  publish_after-Settled : (branch : Bool) → Ends (publish_after o i request_id s branch) Published
  unfolding publish_after
  publish_after-Settled branch = ends_after _ (λ u. ends_after _ (λ v.
      ends_bind (open_pull_request_url s.authority.audit_id o.found)
        (λ url same. ends_after _ (λ w. rw same (finish-Settled (published_url o o.found))))))

  pub publish-Settled : Ends (publish o i request_id s) Published
  unfolding publish
  publish-Settled = ends_after _ (λ u. ends_after _ (λ v. ends_after _ publish_after-Settled))
