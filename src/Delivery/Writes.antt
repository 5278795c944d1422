-- ===== src/Delivery/Writes.antt =====
-- What an attempt writes to GitHub, and when (apps/api/app/delivery.py, `_deliver_work`).
use dev_agent.Base.{
  ◌≡◌, refl, Key, ℕ, Bool, true, false, Option, none, some, String, List, ◌∷◌, arith, not, ◌&&◌,
  is_some, ltb, inl, inr, Bool-cases,
}
use dev_agent.Models.{Db}
use dev_agent.Delivery.{Started, finalize_delivery}
use dev_agent.Delivery.Stages.{
  Stage, bundle, token, metadata, existing_pull_request, existing_branch, workspace, clone,
  checkout, apply, commit, push, pull_request, finalize, is_write,
}
use dev_agent.Delivery.Run.{Run, Outside, Write, ◌>>=◌, during, enter}
use dev_agent.Delivery.Guard.{Permitted}
use dev_agent.Delivery.Publish.{
  stage_call, check_installation, set_url, set_publication, branch_exists, push_branch,
  publish_branch, branch_if_new, open_pull_request, publish_after, publication_text, report, finish,
  prepare, publish,
}
use dev_agent.Delivery.Triple.{
  Log, Meets, Triple, Triple-bind, answered-Triple, stage_call-Triple, commits-Triple,
  with_cleanup-Triple, stage_write-Triple,
}

-- The writes before the token, after it, and after the push that there may be.
pub record WritePlan (o : Outside) (i : Key) (a : ℕ) (bad clear first pushed : Log) : Type 1 where
  pub clear_bad : (ws : List Write) → clear ws → bad ws
  pub first_bad : (ws : List Write) → first ws → bad ws
  pub pushed_bad : (ws : List Write) → pushed ws → bad ws
  pub no_push : (ws : List Write) → first ws → pushed ws
  pub on_token :
      (ws : List Write) (db : Db)
      → Permitted o.is_digest i a db
      → clear ws
      → first ((record { stage = token; under = some db }) ∷ ws)
  pub on_push :
      (ws : List Write) (db : Db)
      → Permitted o.is_digest i a db
      → o.found ≡ none
      → o.branch ≡ false
      → first ws
      → pushed ((record { stage = push; under = some db }) ∷ ws)
  pub on_pull_request :
      (ws : List Write) (db : Db)
      → Permitted o.is_digest i a db
      → o.found ≡ none
      → pushed ws
      → bad ((record { stage = pull_request; under = some db }) ∷ ws)

module _ {bad inv : Log} (fails : (ws : List Write) → inv ws → bad ws) where
  enter-Triple : (s : Stage) → Triple bad inv (enter s) (λ u. inv)
  enter-Triple s = record { holds = λ r h. h }

  set_url-Triple : (u : Option Key) → Triple bad inv (set_url u) (λ v. inv)
  set_url-Triple u = record { holds = λ r h. h }

  set_publication-Triple : (t : String) → Triple bad inv (set_publication t) (λ v. inv)
  set_publication-Triple t = record { holds = λ r h. h }

  installation_meets :
      (n : Option ℕ) (r : Run) → inv r.writes → Meets bad (λ u. inv) (check_installation n r)
  installation_meets none r h = fails r.writes h
  installation_meets (some n) r h = elim (Bool-cases (ltb 0 n)) [
    | inl hit ↦ rw hit h
    | inr miss ↦ rw miss (fails r.writes h)
  ]

  branch_exists-Triple :
      (o : Outside) (u : Option Key)
      → Triple bad inv (branch_exists o u) (λ b ws. inv ws × (u ≡ none → b ≡ o.branch))
  unfolding branch_exists
  branch_exists-Triple o (some u) =
      Triple-bind (enter-Triple existing_branch)
        (λ u. record { holds = λ r h. (h, λ n. absurd (ground arith)) })
  branch_exists-Triple o none =
      Triple-bind (stage_call-Triple fails o existing_branch refl)
        (λ u. record { holds = λ r h. (h, λ n. refl) })

module _ (o : Outside) (i : Key) (request_id : Key) (s : Started) {bad clear first pushed : Log}
    (p : WritePlan o i s.authority.audit_id bad clear first pushed) where
  prepare-Triple : Triple bad clear (prepare o i s) (λ u. first)
  unfolding prepare
  prepare-Triple =
      Triple-bind
        (record { holds = λ r h. installation_meets p.clear_bad s.work.github_installation_id r h })
        (λ u. Triple-bind (stage_call-Triple p.clear_bad o bundle refl) (λ u.
          Triple-bind
            (stage_write-Triple o i s.authority.audit_id token refl p.clear_bad p.first_bad
              p.on_token)
            (λ u.
              Triple-bind (stage_call-Triple p.first_bad o metadata refl)
                (λ u. stage_call-Triple p.first_bad o existing_pull_request refl))))

  push_branch-Triple :
      o.found ≡ none
      → o.branch ≡ false
      → Triple bad first (push_branch o i s.authority.audit_id) (λ u. pushed)
  unfolding push_branch
  push_branch-Triple n f =
      let step : (t : Stage) → is_write t ≡ false → Triple bad first (stage_call o t) (λ u. first) =
        stage_call-Triple p.first_bad o in
      Triple-bind (answered-Triple p.first_bad o.snapshot) (λ u. Triple-bind (step clone refl) (λ u.
        Triple-bind (step checkout refl) (λ u. Triple-bind (step apply refl) (λ u.
          Triple-bind (step commit refl) (λ u.
            stage_write-Triple o i s.authority.audit_id push refl p.first_bad p.pushed_bad
              (λ ws db g h. p.on_push ws db g n f h))))))

  publish_branch-Triple :
      o.found ≡ none
      → o.branch ≡ false
      → Triple bad first (publish_branch o i s.authority.audit_id) (λ u. pushed)
  unfolding publish_branch
  publish_branch-Triple n f =
      Triple-bind (stage_call-Triple p.first_bad o workspace refl)
        (λ u. with_cleanup-Triple p.pushed_bad o (push_branch-Triple n f))

  branch_if_new-Triple :
      (new : Bool)
      → (new ≡ true → (o.found ≡ none) × (o.branch ≡ false))
      → Triple bad first (branch_if_new o i s.authority.audit_id new) (λ u. pushed)
  branch_if_new-Triple true h = publish_branch-Triple (h refl).0 (h refl).1
  branch_if_new-Triple false h = record { holds = λ r. p.no_push r.writes }

  open_pull_request-Triple :
      (u : Option Key)
      → o.found ≡ u
      → Triple bad pushed (open_pull_request o i s.authority.audit_id u) (λ v. bad)
  unfolding open_pull_request ◌>>=◌
  open_pull_request-Triple (some u) h = record { holds = λ r. p.pushed_bad r.writes }
  open_pull_request-Triple none h =
      Triple-bind
        (stage_write-Triple o i s.authority.audit_id pull_request refl p.pushed_bad (λ ws b. b)
          (λ ws db g b. p.on_pull_request ws db g h b))
        (λ u. record { holds = λ r b. b })

  new_branch :
      (f : Option Key) (b branch : Bool)
      → (f ≡ none → b ≡ branch)
      → (not (is_some f) && not b) ≡ true
      → (f ≡ none) × (branch ≡ false)
  new_branch (some u) b branch same h = absurd (ground arith)
  new_branch none b branch same h = (refl, ground (arith, same refl))

  finish-Triple : (url : Key) → Triple bad bad (finish o i request_id s url) (λ u. bad)
  unfolding finish
  finish-Triple url = record {
    holds = λ r h.
        (commits-Triple {bad = bad} {inv = bad} (λ ws h. h) o (during finalize)
            (finalize_delivery o.is_digest (o.seen (during finalize)) i o.spell s.authority url
              (report o request_id s r))).holds
          r h;
  }

  publish_after-Triple :
      (b : Bool)
      → (o.found ≡ none → b ≡ o.branch)
      → Triple bad first (publish_after o i request_id s b) (λ u. bad)
  unfolding publish_after
  publish_after-Triple b same =
      Triple-bind (set_publication-Triple p.first_bad (publication_text o.found b)) (λ u.
        Triple-bind (branch_if_new-Triple _ (new_branch o.found b o.branch same)) (λ u.
          Triple-bind (open_pull_request-Triple o.found refl)
            (λ url. Triple-bind (enter-Triple (λ ws h. h) finalize) (λ u. finish-Triple url))))

  pub publish-Triple : Triple bad clear (publish o i request_id s) (λ u. bad)
  unfolding publish
  publish-Triple = Triple-bind prepare-Triple (λ u.
      Triple-bind (set_url-Triple p.first_bad o.found) (λ u.
        Triple-bind (branch_exists-Triple p.first_bad o o.found)
          (λ b. record { holds = λ r h. (publish_after-Triple b h.1).holds r h.0 })))
