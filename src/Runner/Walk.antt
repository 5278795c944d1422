-- ===== src/Runner/Walk.antt =====
-- The requests of a whole run (apps/runner/kelpie_runner/main.py) against the edges of a worker
-- (apps/api/app/worker_transitions.py).
use dev_agent.Base.{
  ℕ, true, List, ◌∷◌, ◌&&◌, nat_beq, nat_eq, ltb, if◌then◌else◌, ◌-◌, ◌≡◌, refl, sym, subst, arith,
  inl, inr, Bool-cases, and-true,
}
use dev_agent.Models.{provisioning, analyzing, implementing, status_beq, status_decides, status_eq}
use dev_agent.WorkerTransitions.Edges.{worker_edge, worker_transitions}
use dev_agent.Runner.{Mode, unset, bootstrapping, unsupported, Answers, with_work, run}
use dev_agent.Runner.Control.{
  Assignment, View, Reply, shown, conflict, Step, saw, asked, fail_execution, is_bootstrapped_work,
  is_provisioning_work, Booting, settled_boot, after_read, after_transition, bootstrap,
}
use dev_agent.Runner.Steps.{follows, Follows, ask-follows, fail_execution-Follows}
use dev_agent.Runner.Turns.{implement-follows, poll-Follows}

module _ (a : Assignment) (failing : List Step) (f : Follows failing) (k : ℕ → List Step)
    (next : (v : ℕ) → follows analyzing v (k v) ≡ true) where
  booted :
      (w : View) → is_bootstrapped_work a w ≡ true → follows w.status w.version (k w.version) ≡ true
  booted w hit =
      let outer =
        and-true (nat_beq w.id a.id && status_beq w.status analyzing) (nat_beq w.version a.version)
          hit in
      let inner = and-true (nat_beq w.id a.id) (status_beq w.status analyzing) outer.0 in
      let same : w.status ≡ analyzing = (status_decides w.status analyzing).1 inner.1 in
      subst (λ z. follows z w.version (k w.version) ≡ true) (sym same) (next w.version)

  settled_boot-Follows : (w : View) → Follows (settled_boot a w failing k)
  unfolding follows
  settled_boot-Follows w s v = elim (Bool-cases (is_bootstrapped_work a w)) [
    | inr miss ↦ rw miss (f s v)
    | inl hit ↦ rw hit (booted w hit)
  ]

  after_read-Follows : (r : Reply) → Follows (after_read a r failing k)
  after_read-Follows r s v = elim r as (λ q. follows s v (after_read a q failing k) ≡ true) [
    | shown w ↦ settled_boot-Follows w s v
    | other ↦ f s v
  ]

  after_transition-Follows : (b : Booting) → Follows (after_transition a b failing k)
  after_transition-Follows b s v =
      elim b.transitioned
        as (λ q.
          follows s v (after_transition a (record b { transitioned = q }) failing k) ≡ true) [
            | shown w ↦ settled_boot-Follows w s v
            | conflict ↦ after_read-Follows b.reread s v
            | other ↦ f s v
          ]

  provisioned :
      (w : View) (b : Booting)
      → is_provisioning_work a w ≡ true
      → follows w.status w.version
          (asked (a.version - 1) analyzing ∷ after_transition a b failing k)
        ≡ true
  unfolding follows worker_edge worker_transitions
  provisioned w b early =
      let outer =
        and-true (nat_beq w.id a.id && status_beq w.status provisioning)
          (nat_beq w.version (a.version - 1)) early in
      let inner = and-true (nat_beq w.id a.id) (status_beq w.status provisioning) outer.0 in
      let same : w.status ≡ provisioning = (status_decides w.status provisioning).1 inner.1 in
      let version : nat_beq (a.version - 1) w.version ≡ true = ground arith in
      let rest = asked (a.version - 1) analyzing ∷ after_transition a b failing k in
      subst (λ z. follows z w.version rest ≡ true) (sym same)
        (rw version (after_transition-Follows b analyzing w.version))

  bootstrap-Follows : (b : Booting) → Follows (bootstrap a b failing k)
  unfolding bootstrap follows worker_edge worker_transitions
  bootstrap-Follows b s v = elim (Bool-cases (ltb a.version 2)) [
    | inl low ↦ rw low (f s v)
    | inr high ↦
        rw high
          (elim b.work
            as (λ q.
              follows s v (elim q [
                | shown w ↦
                    if is_bootstrapped_work a w
                    then saw w.status w.version ∷ k w.version
                    else if is_provisioning_work a w
                    then saw w.status w.version
                      ∷ asked (a.version - 1) analyzing
                      ∷ after_transition a b failing k
                    else failing
                | other ↦ failing
              ])
              ≡ true) [
                | shown w ↦ elim (Bool-cases (is_bootstrapped_work a w)) [
                  | inl hit ↦ rw hit (booted w hit)
                  | inr miss ↦ elim (Bool-cases (is_provisioning_work a w)) [
                    | inr neither ↦ rw miss (rw neither (f s v))
                    | inl early ↦ rw miss (rw early (provisioned w b early))
                  ]
                ]
                | other ↦ f s v
              ])
  ]

module _ (a : Assignment) (x : Answers) where
  with_work-follows :
      (failing : List Step)
      → Follows failing
      → (v : ℕ) → follows analyzing v (with_work a x failing v) ≡ true
  unfolding worker_edge worker_transitions
  with_work-follows failing f v = elim (Bool-cases x.cloned) [
    | inr miss ↦ rw miss (f analyzing v)
    | inl cloned ↦ rw cloned (
        ask-follows analyzing implementing v x.ready failing _ refl f (λ w.
          elim (Bool-cases x.started) [
            | inr miss ↦ rw miss (f implementing w)
            | inl begun ↦ rw begun (
                implement-follows a.replan_limit failing f 0 w x.turns _
                  (poll-Follows a.replan_limit failing f x.polls))
          ]))
  ]

  -- Whatever the control plane answers and however the runner's work turns out, each status that a run
  -- asks for is along an edge of a worker from the status that the runner last saw or asked for, with the
  -- version that it last saw or was given. (Without a bootstrap the run starts from analyzing work of the
  -- assignment's version.)
  pub run-follows : (mode : Mode) → follows analyzing a.version (run mode a x) ≡ true
  unfolding run
  run-follows mode =
      let failing = fail_execution a.id x.first_failing x.second_failing in
      let f = fail_execution-Follows a.id x.first_failing x.second_failing in
      elim mode as (λ m. follows analyzing a.version (run m a x) ≡ true) [
        | unset ↦ with_work-follows failing f a.version
        | bootstrapping ↦
            bootstrap-Follows a failing f (with_work a x failing) (with_work-follows failing f)
              x.booting analyzing a.version
        | unsupported ↦ f analyzing a.version
      ]
