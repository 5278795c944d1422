-- ===== src/Runner/Turns.antt =====
-- The loops of a run, request by request (apps/runner/kelpie_runner/main.py).
use dev_agent.Base.{
  not, ◌&&◌, ℕ, true, false, Option, none, some, List, [], ◌∷◌, nat_eq, ltb, ◌+◌, ◌≡◌, refl, sym,
  subst, inl, inr, Bool-cases,
}
use dev_agent.Models.{
  committing, implementing, verifying, awaiting_approval, budget_exhausted, status_beq,
  status_decides, status_eq,
}
use dev_agent.WorkerTransitions.Edges.{worker_edge, worker_transitions}
use dev_agent.Runner.{Turn, deliver, verify, implement, Repair, repair, Poll, poll, is_over}
use dev_agent.Runner.Control.{Step}
use dev_agent.Runner.Steps.{follows, Follows, ask-follows}

module _ (limit : ℕ) (failing : List Step) (f : Follows failing) where
  deliver-follows :
      (v : ℕ) (t : Turn) (k : ℕ → List Step)
      → ((w : ℕ) → Follows (k w))
      → follows verifying v (deliver v t failing k) ≡ true
  unfolding worker_edge worker_transitions
  deliver-follows v t k next = elim (Bool-cases t.delivered) [
    | inl taken ↦ rw taken (
        ask-follows verifying awaiting_approval v t.next_version failing k refl f (λ w. next w _ w))
    | inr refused ↦ rw refused (f verifying v)
  ]

  verify-follows :
      (v : ℕ) (t : Turn) (passed unpassed : ℕ → List Step)
      → ((w : ℕ) → follows verifying w (passed w) ≡ true)
      → ((w : ℕ) → follows verifying w (unpassed w) ≡ true)
      → follows implementing v (verify limit failing v t passed unpassed) ≡ true
  unfolding worker_edge worker_transitions
  verify-follows v t passed unpassed p u = elim (Bool-cases t.returns) [
    | inr raises ↦ rw raises (f implementing v)
    | inl back ↦ rw back (
        ask-follows implementing verifying v t.verifying_version failing _ refl f (λ w.
          elim t.passed
            as (λ q.
              follows verifying w
                (elim q [ none ↦ failing | some true ↦ passed w | some false ↦ unpassed w ])
              ≡ true) [ none ↦ f verifying w | some true ↦ p w | some false ↦ u w ]))
  ]

  pub implement-follows :
      (attempts v : ℕ) (ts : List Turn) (polling : List Step)
      → Follows polling
      → follows implementing v (implement limit failing attempts v ts polling) ≡ true
  unfolding implement follows worker_edge worker_transitions
  implement-follows attempts v [] polling p = refl
  implement-follows attempts v (t ∷ ts) polling p =
      verify-follows v t _ _ (λ w. deliver-follows w t _ (λ x. p))
        (λ w. elim (Bool-cases (ltb limit (attempts + 1))) [
          | inl spent ↦ rw spent (
              ask-follows verifying budget_exhausted w t.next_version failing _ refl f (λ x. p _ x))
          | inr left_ ↦ rw left_ (
              ask-follows verifying implementing w t.next_version failing _ refl f
                (λ x. implement-follows (attempts + 1) x ts polling p))
        ])

  repair-follows :
      (attempts v : ℕ) (x : Option ℕ) (rs : List Repair) (polling : List Step)
      → Follows polling
      → follows verifying v (repair limit failing attempts v x rs polling) ≡ true
  unfolding repair follows worker_edge worker_transitions
  repair-follows attempts v x [] polling p = elim (Bool-cases (ltb limit (attempts + 1))) [
    | inl spent ↦
        rw spent (ask-follows verifying budget_exhausted v x failing _ refl f (λ w. p _ w))
    | inr left_ ↦ rw left_ refl
  ]
  repair-follows attempts v x (r ∷ rs) polling p = elim (Bool-cases (ltb limit (attempts + 1))) [
    | inl spent ↦
        rw spent (ask-follows verifying budget_exhausted v x failing _ refl f (λ w. p _ w))
    | inr left_ ↦ rw left_ (
        ask-follows verifying implementing v r.resumed failing _ refl f (λ u.
          verify-follows u r.turn _ _ (λ w. deliver-follows w r.turn _ (λ y. p))
            (λ w. repair-follows (attempts + 1) w x rs polling p)))
  ]

  pub poll-Follows : (ps : List (Option Poll)) → Follows (poll limit failing ps)
  unfolding poll follows
  poll-Follows [] s v = refl
  poll-Follows (none ∷ ps) s v = f s v
  poll-Follows (some p ∷ ps) s v = elim (Bool-cases (is_over p.status)) [
    | inl over ↦ elim (Bool-cases (status_beq p.status committing && not p.announced)) [
      | inl lost_ ↦ rw over (rw lost_ (f p.status p.version))
      | inr told ↦ rw over (rw told refl)
    ]
    | inr going ↦ elim (Bool-cases (status_beq p.status implementing)) [
      | inl resumes ↦
          let same : p.status ≡ implementing = (status_decides p.status implementing).1 resumes in
          let rest = poll limit failing ps in
          let work : List Step =
            verify limit failing p.version p.turn (λ w. deliver w p.turn failing (λ x. rest))
              (λ w. repair limit failing 0 w p.exhausted p.repairs rest) in
          let walked : follows implementing p.version work ≡ true =
            verify-follows p.version p.turn _ _
              (λ w. deliver-follows w p.turn _ (λ x. poll-Follows ps))
              (λ w. repair-follows 0 w p.exhausted p.repairs rest (poll-Follows ps)) in
          rw going (rw resumes (subst (λ z. follows z p.version work ≡ true) (sym same) walked))
      | inr waits ↦ rw going (rw waits (poll-Follows ps p.status p.version))
    ]
  ]
