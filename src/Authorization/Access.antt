-- ===== src/Authorization/Access.antt =====
-- Access to a work item (apps/api/app/authorization.py).
use dev_agent.Base.{◌≤◌, ◌≡◌, ◌≢◌, refl, Key, Option, none, some, arith, Option-cases, inl, inr}
use dev_agent.Base.Table.{find}
use dev_agent.Models.{
  Db, WorkItem, Role, viewer, operator, approver, administrator, Repository, work_keyed,
  repository_keyed,
}
use dev_agent.Authorization.{
  Actor, RoleDecision, role_in, effective_rank, decide_role, authorize_repository_with_decision,
  authorized_work_with_decision,
}
use dev_agent.Authorization.Roles.{rank, role_at}
use dev_agent.Tx.{Env, ok, err, Result-cases, http}

-- The effective role is the better of the two.
pub rank-effective :
    (org : Role) (granted : Option Role)
    → rank (role_at (effective_rank org granted)) ≡ effective_rank org granted
unfolding effective_rank
rank-effective viewer none = refl
rank-effective operator none = refl
rank-effective approver none = refl
rank-effective administrator none = refl
rank-effective viewer (some viewer) = refl
rank-effective viewer (some operator) = refl
rank-effective viewer (some approver) = refl
rank-effective viewer (some administrator) = refl
rank-effective operator (some viewer) = refl
rank-effective operator (some operator) = refl
rank-effective operator (some approver) = refl
rank-effective operator (some administrator) = refl
rank-effective approver (some viewer) = refl
rank-effective approver (some operator) = refl
rank-effective approver (some approver) = refl
rank-effective approver (some administrator) = refl
rank-effective administrator (some viewer) = refl
rank-effective administrator (some operator) = refl
rank-effective administrator (some approver) = refl
rank-effective administrator (some administrator) = refl

-- What a granted access rests on.
pub record Access (lower : Key → Key) (actor : Actor) (name : Key) (required : Role) (db : Db)
    (repository : Repository) (decision : RoleDecision) : Type 0 where
  pub found : find (lower name) db.iam.repositories ≡ some repository
  pub same_organization : repository.organization_id ≡ actor.organization
  pub organization_role : actor.role ≡ some decision.organization_role
  pub repository_role :
      decision.repository_role ≡ role_in repository.name actor.principal_id db.iam.grants
  pub required_role : decision.required_role ≡ required
  pub effective :
      rank decision.effective_role
      ≡ effective_rank decision.organization_role decision.repository_role
  pub enough : rank required ≤ rank decision.effective_role

module _ (lower : Key → Key) (actor : Actor) (required : Role) (e : Env) (db : Db) where
  pub authorize_repository_ok :
      (name : Key) {repository : Repository} {decision : RoleDecision} {db' : Db}
      → authorize_repository_with_decision lower actor name required e db
        ≡ ok ((repository, decision), db')
      → Access lower actor name required db repository decision × (db' ≡ db)
  unfolding authorize_repository_with_decision decide_role
  authorize_repository_ok name {repository} {decision} {db'} h =
      elim (Option-cases (find (lower name) db.iam.repositories)) [
        | inl missing ↦ absurd (ground arith)
        | inr (r, found) ↦ elim (Option-cases actor.role) [
          | inl missing ↦ absurd (ground arith)
          | inr (org, role) ↦
              let granted : Option Role = role_in r.name actor.principal_id db.iam.grants in
              let same : repository ≡ r = ground arith in
              let decided : decision ≡ decide_role org granted required = ground arith in
              let enough : rank required ≤ effective_rank org granted = ground arith in
              let kept : db' ≡ db = ground arith in
              let inside : r.organization_id ≡ actor.organization = ground arith in
              (
                rw decided (
                    rw same (record {
                      found = found;
                      same_organization = inside;
                      organization_role = role;
                      repository_role = refl;
                      required_role = refl;
                      effective = rank-effective org granted;
                      enough = rw (rank-effective org granted) enough;
                    })),
                kept,
              )
        ]
      ]

-- An access to a work item: it belongs to the actor's organization, and the actor has the access
-- to its repository.
pub record WorkAccess (lower : Key → Key) (actor : Actor) (i : Key) (required : Role) (db : Db)
    (item : WorkItem) (decision : RoleDecision) : Type 0 where
  pub found : find i db.works ≡ some item
  pub own_organization : item.organization_id ≡ actor.organization
  pub repository : Repository
  pub access : Access lower actor item.repository required db repository decision

module _ (lower : Key → Key) (actor : Actor) (i : Key) (required : Role) (e : Env) (db : Db) where
  -- An actor is given a work item only of its own organization, in a repository of its own
  -- organization, and only with an effective role that is at least the required one; the effective
  -- role is the better of the membership's role and the actor's own grant in that repository. The
  -- check itself writes nothing.
  pub authorized_work_ok :
      {item : WorkItem} {decision : RoleDecision} {db' : Db}
      → authorized_work_with_decision lower actor i required e db ≡ ok ((item, decision), db')
      → WorkAccess lower actor i required db item decision × (db' ≡ db)
  unfolding authorized_work_with_decision
  authorized_work_ok {item} {decision} {db'} h = elim (Option-cases (find i db.works)) [
    | inl missing ↦ absurd (ground arith)
    | inr (w, found) ↦
        elim (Result-cases
          (authorize_repository_with_decision lower actor w.repository required e db)) [
            | inl bad ↦ absurd (ground arith)
            | inr (((r, d), db1), good) ↦
                let facts = authorize_repository_ok lower actor required e db w.repository good in
                let same : item ≡ w = ground arith in
                let decided : decision ≡ d = ground arith in
                let kept : db' ≡ db = ground (arith, facts.1) in
                let own : w.organization_id ≡ actor.organization = ground arith in
                (
                  rw decided (
                      rw same (record {
                        found = found;
                        own_organization = own;
                        repository = r;
                        access = facts.0;
                      })),
                  kept,
                )
          ]
  ]

  -- A work item of another organization is refused in the same words as one that does not exist.
  pub other_organization_hidden :
      {item : WorkItem}
      → find i db.works ≡ some item
      → item.organization_id ≢ actor.organization
      → (none_there : Db) → find i none_there.works ≡ none
      → authorized_work_with_decision lower actor i required e db
          ≡ err (http 404 "work item not found")
        × authorized_work_with_decision lower actor i required e none_there
          ≡ err (http 404 "work item not found")
  unfolding authorized_work_with_decision
  other_organization_hidden found other there missing = (ground arith, ground arith)
