-- ===== src/Runner.antt =====
-- apps/runner/kelpie_runner/main.py: what the runner asks of the control plane, by the answers that it
-- gets and by what its own work comes to. Events, evidence and prompts are left out.
pub mod Control
pub mod Steps
pub mod Turns
pub mod Walk
use dev_agent.Base.{
  ℕ, Bool, true, false, Option, none, some, List, [], ◌∷◌, ◌&&◌, not, ltb, if◌then◌else◌, ◌+◌,
}
use dev_agent.Models.{
  WorkStatus, implementing, verifying, awaiting_approval, budget_exhausted, committing, cancelled,
  failed, pr_created, completed, status_beq,
}
use Control.{Assignment, Step, ask, Round, fail_execution, Booting, bootstrap, saw}

-- What one turn of the agent and its verification come to: whether the turn returns, the answer to
-- `verifying`, the checks (none: they raise), whether evidence and bundle are taken, and the answer to
-- the next transition.
pub record Turn : Type 0 where
  pub returns : Bool
  pub verifying_version : Option ℕ
  pub passed : Option Bool
  pub delivered : Bool
  pub next_version : Option ℕ

-- The upload of evidence and bundle, and `awaiting_approval`.
abbrev pub deliver : ℕ → Turn → List Step → (ℕ → List Step) → List Step
deliver version t failing k =
    if t.delivered then ask version awaiting_approval t.next_version failing k else failing

-- A round of `while not passed`: `resumed` is the answer to `implementing`.
pub record Repair : Type 0 where
  pub resumed : Option ℕ
  pub turn : Turn

-- An answer to `commands`: the run's status and version, and what the work that it may start comes to;
-- `exhausted` is the answer to `budget_exhausted`, `announced` whether the event of a delivery is taken.
pub record Poll : Type 0 where
  pub status : WorkStatus
  pub version : ℕ
  pub turn : Turn
  pub repairs : List Repair
  pub exhausted : Option ℕ
  pub announced : Bool

-- `{"cancelled", "failed", "pr_created", "completed"}`, and `committing`, at which the run is over too
abbrev pub is_over : WorkStatus → Bool
is_over committing = true
is_over cancelled = true
is_over failed = true
is_over pr_created = true
is_over completed = true
is_over _ = false

module _ (limit : ℕ) (failing : List Step) where
  abbrev pub verify : ℕ → Turn → (passed unpassed : ℕ → List Step) → List Step
  verify version t passed unpassed =
      if t.returns
      then ask version verifying t.verifying_version failing
          (λ v. elim t.passed [ none ↦ failing | some true ↦ passed v | some false ↦ unpassed v ])
      else failing

  -- The loop of the first implementation; `polling` is what follows it.
  unfoldable pub implement : (attempts : ℕ) → (version : ℕ) → List Turn → List Step → List Step
  implement attempts version [] polling = []
  implement attempts version (t ∷ ts) polling =
      verify version t (λ v. deliver v t failing (λ w. polling))
        (λ v.
          if ltb limit (attempts + 1)
          then ask v budget_exhausted t.next_version failing (λ w. polling)
          else ask v implementing t.next_version failing
              (λ w. implement (attempts + 1) w ts polling))

  -- The repairs of authorized changes, from a failed verification on.
  unfoldable pub repair :
      (attempts : ℕ) → (version : ℕ) → (exhausted : Option ℕ) → List Repair → List Step → List Step
  repair attempts version exhausted [] polling =
      if ltb limit (attempts + 1)
      then ask version budget_exhausted exhausted failing (λ w. polling)
      else []
  repair attempts version exhausted (r ∷ rs) polling =
      if ltb limit (attempts + 1)
      then ask version budget_exhausted exhausted failing (λ w. polling)
      else ask version implementing r.resumed failing (λ u.
        verify u r.turn (λ v. deliver v r.turn failing (λ w. polling))
          (λ v. repair (attempts + 1) v exhausted rs polling))

  -- The loop that waits for the control plane; none is a poll that raises. Without a further answer
  -- the run is cut off.
  unfoldable pub poll : List (Option Poll) → List Step
  unfolding repair
  poll [] = []
  poll (none ∷ ps) = failing
  poll (some p ∷ ps) =
      let rest = poll ps in
      if is_over p.status
      then saw p.status p.version
        ∷ (if status_beq p.status committing && not p.announced then failing else [])
      else saw p.status p.version
        ∷ (if status_beq p.status implementing
            then verify p.version p.turn (λ v. deliver v p.turn failing (λ w. rest))
                (λ v. repair 0 v p.exhausted p.repairs rest)
            else rest)

-- `KELPIE_CONTROL_BOOTSTRAP`
pub data Mode : Type 0 where
  unset bootstrapping unsupported : Mode

-- All that a run is answered. `cloned` is whether the repository is there, `ready` the answer to the
-- first `implementing`, `started` whether the agent starts.
pub record Answers : Type 0 where
  pub booting : Booting
  pub cloned : Bool
  pub ready : Option ℕ
  pub started : Bool
  pub turns : List Turn
  pub polls : List (Option Poll)
  pub first_failing : Round
  pub second_failing : Round

abbrev pub with_work : Assignment → Answers → List Step → ℕ → List Step
with_work a x failing version =
    if x.cloned
    then ask version implementing x.ready failing (λ v.
      if x.started
      then implement a.replan_limit failing 0 v x.turns (poll a.replan_limit failing x.polls)
      else failing)
    else failing

-- `run`, with the handler of its exceptions
unfoldable pub run : Mode → Assignment → Answers → List Step
unfolding fail_execution bootstrap implement poll
run mode a x =
    let failing = fail_execution a.id x.first_failing x.second_failing in
    elim mode [
      | unset ↦ with_work a x failing a.version
      | bootstrapping ↦ bootstrap a x.booting failing (with_work a x failing)
      | unsupported ↦ failing
    ]
