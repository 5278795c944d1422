-- ===== src/Provision/Document.antt =====
-- The policy document of apps/api/app/iam.py and its validation across fields.
use dev_agent.Base.{
  ℕ, Key, Bool, true, false, Option, none, some, List, [], ◌∷◌, ◌&&◌, not, nat_beq, nat_eq, any,
  contains, if◌then◌else◌, String,
}
use dev_agent.Models.{Role, administrator}
use dev_agent.Tx.{Result, ok, err, invalid}

pub record MemberPolicy : Type 0 where
  pub subject : Key
  pub role : Role

-- `name` is the normalized name.
pub record RepositoryPolicy : Type 0 where
  pub name : Key
  pub github_installation_id : Option ℕ
  pub grants : List MemberPolicy

pub record SlackPolicy : Type 0 where
  pub team_id : Key
  pub user_id : Key
  pub subject : Key

pub record OrganizationPolicy : Type 0 where
  pub organization_id : Key
  pub issuer : Key
  pub claim : Key
  pub members : List MemberPolicy
  pub repositories : List RepositoryPolicy
  pub slack_identities : List SlackPolicy

-- `len(set(values)) == len(values)`
unfoldable pub distinct : List Key → Bool
distinct [] = true
distinct (k ∷ ks) = not (contains k ks) && distinct ks

unfoldable pub distinct_bindings : List SlackPolicy → Bool
distinct_bindings [] = true
distinct_bindings (s ∷ ss) =
    not (any (λ t. nat_beq s.team_id t.team_id && nat_beq s.user_id t.user_id) ss)
    && distinct_bindings ss

unfoldable pub subjects : List MemberPolicy → List Key
subjects [] = []
subjects (m ∷ ms) = m.subject ∷ subjects ms

unfoldable pub repository_names : List RepositoryPolicy → List Key
repository_names [] = []
repository_names (r ∷ rs) = r.name ∷ repository_names rs

abbrev pub administers : Role → Bool
administers administrator = true
administers other = false

abbrev pub is_administrator : MemberPolicy → Bool
is_administrator m = administers m.role

-- `if test: raise ValueError(text)` in a chain
abbrev checked : {A : Type 0} → Bool → String → Result A → Result A
checked true text rest = rest
checked false text rest = err (invalid text)

unfoldable pub check_grants : List Key → List RepositoryPolicy → Option String
unfolding subjects distinct
check_grants members [] = none
check_grants members (r ∷ rs) =
    let rest = check_grants members rs in
    if not (distinct (subjects r.grants))
    then some "duplicate repository grant"
    else if any (λ g. not (contains g.subject members)) r.grants
    then some "repository grants require organization membership"
    else rest

abbrev pub no_error : Option String → {A : Type 0} → Result A → Result A
no_error none rest = rest
no_error (some text) rest = err (invalid text)

-- `validate_bindings`; `legacy` is the reserved name, `is_https` the test of the issuer's scheme.
unfoldable pub validate_bindings :
    (legacy : Key) → (is_https : Key → Bool) → OrganizationPolicy → Result OrganizationPolicy
unfolding subjects distinct repository_names check_grants distinct_bindings
validate_bindings legacy is_https policy =
    let members = subjects policy.members in
    checked (not (nat_beq policy.organization_id legacy))
      "legacy is reserved for quarantined historical work"
      (checked (is_https policy.issuer) "issuer must use https" (
        checked (distinct members) "duplicate member" (
          checked (any is_administrator policy.members)
            "at least one organization administrator is required"
            (checked (distinct (repository_names policy.repositories)) "duplicate repository" (
              no_error (check_grants members policy.repositories) (
                checked (not (any (λ s. not (contains s.subject members)) policy.slack_identities))
                  "Slack identities require organization membership"
                  (checked (distinct_bindings policy.slack_identities) "duplicate Slack identity"
                    (ok policy))))))))
