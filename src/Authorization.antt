-- ===== src/Authorization.antt =====
-- apps/api/app/authorization.py, and `actor_from_identity` of apps/api/app/auth.py: what an actor
-- may do in a repository.
pub mod Roles
pub mod Access
use dev_agent.Base.{
  ℕ, Key, Option, none, some, List, [], ◌∷◌, ◌&&◌, not, max, nat_beq, leb, holds, is_some,
  if◌then◌else◌,
}
use dev_agent.Base.Table.{find}
use dev_agent.Models.{
  WorkItem, Role, Repository, RepositoryGrant, Organization, Principal, Membership, SlackIdentity,
  Name, ident, work_keyed, repository_keyed, organization_keyed, principal_keyed,
}
use dev_agent.Tx.{Tx, Error, http, pure, require, or_raise, reads, modify, ◌>>=◌, ◌>>◌}
use Roles.{rank, role_at}

-- `Actor.role` is a text; one that is no `Role` is `none`.
pub record Actor : Type 0 where
  pub subject : Key
  pub role : Option Role
  pub identity_provider : Name
  pub organization : Key
  pub principal_id : Option Key

pub record RoleDecision : Type 0 where
  pub organization_role : Role
  pub repository_role : Option Role
  pub effective_role : Role
  pub required_role : Role

unfoldable pub find_grant : Key → Key → List RepositoryGrant → Option RepositoryGrant
find_grant r p [] = none
find_grant r p (g ∷ gs) =
    if nat_beq g.repository r && nat_beq g.principal_id p then some g else find_grant r p gs

-- The grant of the actor in the repository, if it is a person with one.
abbrev pub grant_role : Option RepositoryGrant → Option Role
grant_role none = none
grant_role (some g) = some g.role

unfoldable pub role_in : Key → Option Key → List RepositoryGrant → Option Role
unfolding find_grant
role_in r none gs = none
role_in r (some p) gs = grant_role (find_grant r p gs)

-- `max(effective, ROLE_ORDER[grant.role])`
unfoldable pub effective_rank : Role → Option Role → ℕ
effective_rank org none = rank org
effective_rank org (some r) = max (rank org) (rank r)

unfoldable pub decide_role : Role → Option Role → Role → RoleDecision
unfolding effective_rank
decide_role org granted required = record {
  organization_role = org;
  repository_role = granted;
  effective_role = role_at (effective_rank org granted);
  required_role = required;
}

abbrev no_repository : Error
no_repository = http 404 "repository not found"

-- `lower` is `str.lower` on repository names.
module _ (lower : Key → Key) where
  unfoldable pub authorize_repository_with_decision :
      Actor → Key → Role → Tx (Repository × RoleDecision)
  unfolding role_in effective_rank decide_role
  authorize_repository_with_decision actor name required = do
    repository ← or_raise (← reads (λ db. find (lower name) db.iam.repositories)) no_repository
    require (nat_beq repository.organization_id actor.organization) no_repository
    org ← or_raise actor.role (http 403 "invalid organization role")
    granted ← reads (λ db. role_in repository.name actor.principal_id db.iam.grants)
    require (leb (rank required) (effective_rank org granted)) (http 403 "role required")
    pure (repository, decide_role org granted required)

  unfoldable pub authorized_work_with_decision : Actor → Key → Role → Tx (WorkItem × RoleDecision)
  authorized_work_with_decision actor work_item_id required = do
    item ← or_raise (← reads (λ db. find work_item_id db.works)) (http 404 "work item not found")
    require (nat_beq item.organization_id actor.organization) (http 404 "work item not found")
    (repository, decision) ← authorize_repository_with_decision actor item.repository required
    pure (item, decision)

  -- Only in development mode: a repository that nobody registered is registered.
  unfoldable pub development_repository : (legacy organization_id name : Key) → Tx (Unit {0})
  development_repository legacy organization_id name = do
    require (not (nat_beq organization_id legacy)) (http 403 "legacy organization is quarantined")
    organization ← reads (λ db. find organization_id db.iam.organizations)
    elim organization [
      | none ↦ modify (λ db. record db {
        iam = record (db.iam) {
          organizations =
              record { id = organization_id; issuer = none; claim = none } ∷ db.iam.organizations;
        };
      })
      | some o ↦ require (not (is_some o.issuer)) (http 403 "development organization is reserved")
    ]
    existing ← reads (λ db. find (lower name) db.iam.repositories)
    if is_some existing
        then pure tt
        else modify (λ db. record db {
          iam = record (db.iam) {
            repositories =
                record {
                  name = lower name;
                  organization_id = organization_id;
                  github_installation_id = none;
                }
                ∷ db.iam.repositories;
          };
        })

-- The row of the join in `actor_from_identity`: the unique pairs are found one after the other.
unfoldable pub find_principal : Key → Key → List Principal → Option Principal
find_principal issuer subject [] = none
find_principal issuer subject (p ∷ ps) =
    if nat_beq p.issuer issuer && nat_beq p.subject subject
    then some p
    else find_principal issuer subject ps

unfoldable pub find_organization : Key → Key → List Organization → Option Organization
find_organization issuer claim [] = none
find_organization issuer claim (o ∷ os) =
    if holds issuer o.issuer && holds claim o.claim
    then some o
    else find_organization issuer claim os

unfoldable pub find_membership : Key → Key → List Membership → Option Membership
find_membership o p [] = none
find_membership o p (m ∷ ms) =
    if nat_beq m.organization_id o && nat_beq m.principal_id p
    then some m
    else find_membership o p ms

abbrev not_member : Error
not_member = http 403 "organization membership required"

unfoldable pub actor_from_identity : Key → Key → Key → Tx Actor
unfolding find_principal find_organization find_membership
actor_from_identity issuer subject claim = do
  principal ← or_raise (← reads (λ db. find_principal issuer subject db.iam.principals)) not_member
  organization ←
      or_raise (← reads (λ db. find_organization issuer claim db.iam.organizations)) not_member
  membership ←
      or_raise (← reads (λ db. find_membership organization.id principal.id db.iam.memberships))
        not_member
  pure (record {
    subject = principal.subject;
    role = some membership.role;
    identity_provider = ident principal.issuer;
    organization = organization.id;
    principal_id = some principal.id;
  })

unfoldable pub find_slack : Key → Key → List SlackIdentity → Option SlackIdentity
find_slack team user [] = none
find_slack team user (s ∷ ss) =
    if nat_beq s.team_id team && nat_beq s.user_id user then some s else find_slack team user ss

abbrev not_linked : Error
not_linked = http 403 "Slack identity is not linked"

unfoldable pub slack_actor : Key → Key → Tx Actor
unfolding actor_from_identity find_slack
slack_actor team user = do
  identity ← or_raise (← reads (λ db. find_slack team user db.iam.slack_identities)) not_linked
  principal ← or_raise (← reads (λ db. find identity.principal_id db.iam.principals)) not_linked
  organization ←
      or_raise (← reads (λ db. find identity.organization_id db.iam.organizations)) not_linked
  claim ← or_raise organization.claim not_linked
  actor_from_identity principal.issuer principal.subject claim
