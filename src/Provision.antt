-- ===== src/Provision.antt =====
-- apps/api/app/iam.py: the policy of an organization, its validation and its application.
pub mod Document
pub mod Steps
pub mod Isolation
pub mod Grants
pub mod Apply
pub mod Members
pub mod SignIn
use dev_agent.Base.{
  Key, Bool, Option, none, some, List, [], ◌∷◌, ◌&&◌, not, nat_beq, nat_eq, any, contains, select,
  if◌then◌else◌, is_some, holds,
}
use dev_agent.Base.Table.{find, keys_where}
use dev_agent.Models.{Iam, Organization, repository_keyed, organization_keyed}
use dev_agent.Authorization.{find_principal, find_slack}
use Document.{MemberPolicy, RepositoryPolicy, SlackPolicy, OrganizationPolicy}
use dev_agent.Tx.{
  Tx, invalid, integrity, key_error, pure, require, or_raise, reads, modify, for_each, ◌>>=◌, ◌>>◌,
}

abbrev pub change_iam : (Iam → Iam) → Tx (Unit {0})
change_iam f = modify (λ db. record db { iam = f db.iam })

-- `organization` of `apply_policy`: one that has no identity binding yet, or the one that has this.
abbrev same_binding : OrganizationPolicy → Organization → Bool
same_binding p o = holds p.issuer o.issuer && holds p.claim o.claim

unfoldable pub bind_organization : OrganizationPolicy → Option Organization → Tx (Unit {0})
bind_organization p (some o) =
    require (same_binding p o) (invalid "an organization's identity binding cannot be reassigned")
bind_organization p none = do
  taken ← reads (λ db. any (same_binding p) db.iam.organizations)
  require (not taken) integrity
  change_iam (λ iam. record iam {
    organizations =
        (record { id = p.organization_id; issuer = some p.issuer; claim = some p.claim })
        ∷ iam.organizations;
  })

-- The id of a member's principal, who is added when he is new; `new_id` stands for `uuid4`.
unfoldable pub resolve_member : (new_id : Key → Key → Key) → (issuer : Key) → MemberPolicy → Tx Key
resolve_member new_id issuer m = do
  found ← reads (λ db. find_principal issuer m.subject db.iam.principals)
  elim found [
    | some p ↦ pure p.id
    | none ↦ (do
      change_iam (λ iam. record iam {
        principals =
            (record { id = new_id issuer m.subject; issuer = issuer; subject = m.subject })
            ∷ iam.principals;
      })
      pure (new_id issuer m.subject))
  ]

-- `principal_ids`
abbrev pub Ids : Type 0
Ids = List (Key × Key)

unfoldable pub resolve_members :
    (new_id : Key → Key → Key) → (issuer : Key) → List MemberPolicy → Tx Ids
unfolding resolve_member
resolve_members new_id issuer [] = pure []
resolve_members new_id issuer (m ∷ ms) = do
  i ← resolve_member new_id issuer m
  rest ← resolve_members new_id issuer ms
  pure ((m.subject, i) ∷ rest)

unfoldable pub id_of : Key → Ids → Option Key
id_of s [] = none
id_of s ((t, i) ∷ ids) = let rest = id_of s ids in if nat_beq t s then some i else rest

-- The `delete`s of the organization's rows.
unfoldable pub clear_organization : Key → Iam → Iam
clear_organization o iam =
    let names = keys_where (λ r. nat_beq r.organization_id o) iam.repositories in
    record iam {
      grants = select (λ g. not (contains g.repository names)) iam.grants;
      slack_identities = select (λ s. not (nat_beq s.organization_id o)) iam.slack_identities;
      memberships = select (λ m. not (nat_beq m.organization_id o)) iam.memberships;
      repositories = select (λ r. not (nat_beq r.organization_id o)) iam.repositories;
    }

unfoldable pub add_member : OrganizationPolicy → Ids → MemberPolicy → Tx (Unit {0})
unfolding id_of
add_member p ids m = do
  i ← or_raise (id_of m.subject ids) key_error
  taken ← reads (λ db.
      any (λ n. nat_beq n.organization_id p.organization_id && nat_beq n.principal_id i)
        db.iam.memberships)
  require (not taken) integrity
  change_iam (λ iam. record iam {
    memberships =
        (record { organization_id = p.organization_id; principal_id = i; role = m.role })
        ∷ iam.memberships;
  })

unfoldable pub add_repository : OrganizationPolicy → RepositoryPolicy → Tx (Unit {0})
add_repository p r = do
  existing ← reads (λ db. find r.name db.iam.repositories)
  require (not (is_some existing)) (invalid "repository is already owned by another organization")
  change_iam (λ iam. record iam {
    repositories =
        (record {
          name = r.name;
          organization_id = p.organization_id;
          github_installation_id = r.github_installation_id;
        })
        ∷ iam.repositories;
  })

unfoldable pub add_grant : Key → Ids → MemberPolicy → Tx (Unit {0})
unfolding id_of
add_grant name ids g = do
  i ← or_raise (id_of g.subject ids) key_error
  taken ←
      reads (λ db. any (λ n. nat_beq n.repository name && nat_beq n.principal_id i) db.iam.grants)
  require (not taken) integrity
  change_iam (λ iam. record iam {
    grants = (record { repository = name; principal_id = i; role = g.role }) ∷ iam.grants;
  })

abbrev pub add_grants : Ids → RepositoryPolicy → Tx (Unit {0})
add_grants ids r = for_each r.grants (add_grant r.name ids)

unfoldable pub add_identity : OrganizationPolicy → Ids → SlackPolicy → Tx (Unit {0})
unfolding id_of
add_identity p ids s = do
  existing ← reads (λ db. find_slack s.team_id s.user_id db.iam.slack_identities)
  require (not (is_some existing))
      (invalid "Slack identity is already bound to another organization")
  i ← or_raise (id_of s.subject ids) key_error
  change_iam (λ iam. record iam {
    slack_identities =
        (record {
          team_id = s.team_id;
          user_id = s.user_id;
          principal_id = i;
          organization_id = p.organization_id;
        })
        ∷ iam.slack_identities;
  })

-- What `apply_policy` does once it has the members' principals.
unfoldable pub replace_policy : OrganizationPolicy → Ids → Tx (Unit {0})
unfolding clear_organization add_member add_repository add_grant add_identity for_each
replace_policy p ids = do
  change_iam (clear_organization p.organization_id)
  for_each p.members (add_member p ids)
  for_each p.repositories (add_repository p)
  for_each p.repositories (add_grants ids)
  for_each p.slack_identities (add_identity p ids)

unfoldable pub apply_policy : (new_id : Key → Key → Key) → OrganizationPolicy → Tx (Unit {0})
unfolding bind_organization resolve_members replace_policy
apply_policy new_id p = do
  organization ← reads (λ db. find p.organization_id db.iam.organizations)
  bind_organization p organization
  ids ← resolve_members new_id p.issuer p.members
  replace_policy p ids
