-- ===== src/Delivery/Outcome.antt =====
-- The writes of a whole attempt (apps/api/app/delivery.py, `_deliver_work` with its handlers).
use dev_agent.Base.{
  ◌≡◌, refl, Key, ℕ, Bool, true, false, Option, none, some, List, [], ◌∷◌, All, arith, not, ◌&&◌,
  is_some, inl, inr, ◌⊎◌, subst, sym,
}
use dev_agent.Models.{Db}
use dev_agent.Tx.{ok, err, Result}
use dev_agent.Delivery.{Started, Report, start_delivery}
use dev_agent.Delivery.Stages.{Stage, Failure, token, push, pull_request, stopped, authorization}
use dev_agent.Delivery.Run.{Run, Outside, Write, Step, went, raised, during, failing}
use dev_agent.Delivery.Guard.{PermittedWrite}
use dev_agent.Delivery.Publish.{
  deliver_work, publish, handle, fail_run, audit_stop, report, failed_or_stopped, concluded,
  carried_on, first_run,
}
use dev_agent.Delivery.Triple.{Log, Meets}
use dev_agent.Delivery.Writes.{WritePlan, publish-Triple}

-- The writes that an attempt may make: the token, then at most one push and at most one pull request.
abbrev pub stages : List Write → List Stage
stages [] = []
stages (w ∷ ws) = w.stage ∷ stages ws

-- With the newest write first; `found` is a pull request that exists, `branch` its branch.
abbrev pub in_order : (found : Bool) → (branch : Bool) → List Stage → Bool
in_order found branch [] = true
in_order found branch (token ∷ []) = true
in_order found branch (push ∷ token ∷ []) = not found && not branch
in_order found branch (pull_request ∷ token ∷ []) = not found
in_order found branch (pull_request ∷ push ∷ token ∷ []) = not found && not branch
in_order found branch other = false

module _ (o : Outside) (i : Key) where
  audit_stop-writes : (t : Report) (r : Run) → (audit_stop o i t r).1.writes ≡ r.writes
  unfolding audit_stop
  audit_stop-writes t r = refl

  failed-writes :
      (t : Report) (r : Run) (db : Db) (x : Result (Unit {0} × Db))
      → (failed_or_stopped o i t r db x).1.writes ≡ r.writes
  failed-writes t r db x = ground (arith, audit_stop-writes t (record r { db = db }))

  handle-writes :
      (request_id : Key) (s : Started) (x : Failure) (r : Run)
      → (handle o i request_id s x r).1.writes ≡ r.writes
  unfolding handle fail_run
  handle-writes request_id s x r =
      elim x as (λ y. (handle o i request_id s y r).1.writes ≡ r.writes) [
        | stopped ↦ audit_stop-writes (report o request_id s r) r
        | other ↦ failed-writes (report o request_id s r) r (o.meanwhile failing r.db) _
      ]

  concluded-Log :
      (bad : Log) (request_id : Key) (s : Started) (t : Step (Unit {0}))
      → Meets bad (λ u. bad) t
      → bad (concluded o i request_id s t).1.writes
  concluded-Log bad request_id s (went u r) h = h
  concluded-Log bad request_id s (raised x r) h = subst bad (sym (handle-writes request_id s x r)) h

  -- The writes of an attempt obey a plan for the approval that it starts with.
  carried_on-Log :
      (bad : ℕ → Log) (request_id : Key) (db : Db) (t : Result (Option Started × Db))
      → ((a : ℕ) → bad a [])
      → ((s : Started) (db' : Db)
          → bad s.authority.audit_id
              (concluded o i request_id s (publish o i request_id s (first_run db'))).1.writes)
      → (a : ℕ) × bad a (carried_on o i request_id db t).1.writes
  carried_on-Log bad request_id db (err x) empty start = (0, empty 0)
  carried_on-Log bad request_id db (ok (none, db')) empty start = (0, empty 0)
  carried_on-Log bad request_id db (ok (some s, db')) empty start =
      (s.authority.audit_id, start s db')

  module _ (request_id : Key) (db : Db) where
    deliver_work-Log :
        (bad : ℕ → Log) (clear first pushed : ℕ → Log)
        → ((a : ℕ) → bad a [])
        → ((a : ℕ) → clear a [])
        → ((a : ℕ) → WritePlan o i a (bad a) (clear a) (first a) (pushed a))
        → (a : ℕ) × bad a (deliver_work o i request_id db).1.writes
    unfolding deliver_work
    deliver_work-Log bad clear first pushed empty start plan =
        let before = o.meanwhile (during authorization) db in
        let begun =
          start_delivery o.is_digest (o.seen (during authorization)) i request_id
            (o.env (during authorization)) before in
        carried_on-Log bad request_id before begun empty (λ s db'.
          concluded-Log (bad s.authority.audit_id) request_id s
            (publish o i request_id s (first_run db'))
            ((publish-Triple o i request_id s (plan s.authority.audit_id)).holds (first_run db')
              (start s.authority.audit_id)))

    -- Whatever happens around it, every call of an attempt that writes to GitHub (for a token, the push, the
    -- new pull request) is made while it holds the locks of its delivery, and there the delivery is
    -- running, its worker assigned and in service, and one and the same approval a person's for this
    -- work and this bundle.
    pub deliver_work-Permitted :
        (a : ℕ) × All
          (λ w. PermittedWrite o.is_digest i a w)
          (deliver_work o i request_id db).1.writes
    deliver_work-Permitted =
        let held : ℕ → Log = λ a. All (λ w. PermittedWrite o.is_digest i a w) in
        deliver_work-Log held held held held (λ a. tt) (λ a. tt)
          (λ a. record {
            clear_bad = λ ws h. h;
            first_bad = λ ws h. h;
            pushed_bad = λ ws h. h;
            no_push = λ ws h. h;
            on_token = λ ws d p h. ((d, refl, p), h);
            on_push = λ ws d p n f h. ((d, refl, p), h);
            on_pull_request = λ ws d p n h. ((d, refl, p), h);
          })

    -- An attempt asks for one token, then pushes at most once, then opens at most one pull request: no
    -- push where the branch exists, and neither where a pull request does.
    pub deliver_work-in_order :
        in_order (is_some o.found) o.branch (stages (deliver_work o i request_id db).1.writes)
        ≡ true
    deliver_work-in_order =
        (deliver_work-Log (λ a ws. in_order (is_some o.found) o.branch (stages ws) ≡ true)
          (λ a ws. stages ws ≡ []) (λ a ws. stages ws ≡ token ∷ [])
          (λ a ws.
            (stages ws ≡ token ∷ [])
            ⊎ ((stages ws ≡ push ∷ token ∷ []) × (o.found ≡ none) × (o.branch ≡ false)))
          (λ a. refl) (λ a. refl)
          (λ a. record {
            clear_bad = λ ws h. rw h refl;
            first_bad = λ ws h. rw h refl;
            pushed_bad = λ ws h. ground arith;
            no_push = λ ws h. inl h;
            on_token = λ ws d p h. rw h refl;
            on_push = λ ws d p n f h. inr (rw h refl, n, f);
            on_pull_request = λ ws d p n h. ground arith;
          })).1
