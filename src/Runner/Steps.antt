-- ===== src/Runner/Steps.antt =====
-- The statuses that a run asks for, one after another, against the edges of a worker
-- (apps/runner/kelpie_runner/main.py, apps/api/app/worker_transitions.py).
use dev_agent.Base.{
  ℕ, Key, Bool, true, Option, none, some, List, [], ◌∷◌, ◌&&◌, not, nat_beq, nat_eq, ltb, ◌≡◌, refl,
  arith, inl, inr, Bool-cases, and-true,
}
use dev_agent.Models.{WorkStatus, failed, status_eq}
use dev_agent.WorkerTransitions.Edges.{worker_edge, worker_transitions}
use dev_agent.Runner.Control.{
  Reply, shown, conflict, Step, saw, asked, answered, ask, is_executing, Round, again, fail_round,
  fail_execution,
}

-- Every status is asked for along an edge of a worker, from the status that the runner last saw or was
-- granted, and with the version that came with it.
unfoldable pub follows : WorkStatus → ℕ → List Step → Bool
unfolding worker_edge
follows s v [] = true
follows s v (saw s' v' ∷ k) = follows s' v' k
follows s v (asked w t ∷ k) = nat_beq w v && worker_edge s t && follows t v k
follows s v (answered w ∷ k) = follows s w k

abbrev pub Follows : List Step → Type 0
Follows k = (s : WorkStatus) (v : ℕ) → follows s v k ≡ true

module _ (s t : WorkStatus) (v : ℕ) (r : Option ℕ) (failing : List Step) (k : ℕ → List Step) where
  pub ask-follows :
      worker_edge s t ≡ true
      → Follows failing
      → ((w : ℕ) → follows t w (k w) ≡ true)
      → follows s v (ask v t r failing k) ≡ true
  unfolding follows
  ask-follows edge f next = elim r as (λ q. follows s v (ask v t q failing k) ≡ true) [
    | none ↦ rw edge (ground (arith, f t v))
    | some w ↦ rw edge (ground (arith, next w))
  ]

executing_edge : (s : WorkStatus) → is_executing s ≡ true → worker_edge s failed ≡ true
unfolding worker_edge worker_transitions
executing_edge s h = ground arith

again-Follows : (q : Reply) (next : List Step) → Follows next → Follows (again q next)
unfolding follows
again-Follows q next f s v = elim q as (λ z. follows s v (again z next) ≡ true) [
  | conflict ↦ f s v
  | other ↦ refl
]

round-Follows :
    (i : Key) (r : Round) (next : List Step) → Follows next → Follows (fail_round i r next)
unfolding follows
round-Follows i r next f s v =
    elim r.work as (λ q. follows s v (fail_round i (record r { work = q }) next) ≡ true) [
      | shown w ↦
          elim (Bool-cases (nat_beq w.id i && not (ltb w.version 1) && is_executing w.status)) [
            | inl fit ↦
                let e = and-true _ (is_executing w.status) fit in
                rw fit (
                  rw (executing_edge w.status e.1)
                    (ground (arith, again-Follows r.failing next f failed w.version)))
            | inr miss ↦ rw miss refl
          ]
      | other ↦ refl
    ]

pub fail_execution-Follows :
    (i : Key) (first second : Round) → Follows (fail_execution i first second)
unfolding fail_execution follows
fail_execution-Follows i first second =
    round-Follows i first _ (round-Follows i second [] (λ s v. refl))
