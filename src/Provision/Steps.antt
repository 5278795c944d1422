-- ===== src/Provision/Steps.antt =====
-- What each step of `apply_policy` (apps/api/app/iam.py) writes.
use dev_agent.Base.{
  ◌≡◌, refl, Key, false, none, some, List, [], ◌∷◌, arith, nat_beq, ◌&&◌, any, inl, inr, Bool-cases,
  Option-cases,
}
use dev_agent.Base.Table.{find}
use dev_agent.Models.{Db, Membership, Repository, RepositoryGrant, SlackIdentity, repository_keyed}
use dev_agent.Authorization.{find_membership, find_slack}
use dev_agent.Tx.{Env, ok}
use dev_agent.Provision.{Ids, id_of, add_member, add_repository, add_grant, add_identity}
use dev_agent.Provision.Document.{OrganizationPolicy, MemberPolicy, RepositoryPolicy, SlackPolicy}

-- A row in the database's policy tables.
abbrev pub with_member : Membership → Db → Db
with_member n db = record db { iam = record db.iam { memberships = n ∷ db.iam.memberships } }

abbrev pub with_repository : Repository → Db → Db
with_repository r db = record db { iam = record db.iam { repositories = r ∷ db.iam.repositories } }

abbrev pub with_grant : RepositoryGrant → Db → Db
with_grant g db = record db { iam = record db.iam { grants = g ∷ db.iam.grants } }

abbrev pub with_identity : SlackIdentity → Db → Db
with_identity s db = record db {
  iam = record db.iam { slack_identities = s ∷ db.iam.slack_identities };
}

abbrev pub member_row : OrganizationPolicy → Key → MemberPolicy → Membership
member_row p i m = record { organization_id = p.organization_id; principal_id = i; role = m.role }

module _ (p : OrganizationPolicy) (ids : Ids) (e : Env) (db : Db) where
  not_taken :
      (o i : Key) (ms : List Membership)
      → any (λ n. nat_beq n.organization_id o && nat_beq n.principal_id i) ms ≡ false
      → find_membership o i ms ≡ none
  unfolding find_membership
  not_taken o i [] h = refl
  not_taken o i (m ∷ ms) h = ground (arith, not_taken o i ms)

  pub add_member_ok :
      (m : MemberPolicy) {db' : Db}
      → add_member p ids m e db ≡ ok (tt, db')
      → (i : Key) × (id_of m.subject ids ≡ some i)
        × (find_membership p.organization_id i db.iam.memberships ≡ none)
        × (db' ≡ with_member (member_row p i m) db)
  unfolding add_member
  add_member_ok m {db'} h = elim (Option-cases (id_of m.subject ids)) [
    | inl miss ↦ absurd (ground arith)
    | inr (i, found) ↦
        let taken =
          any (λ n. nat_beq n.organization_id p.organization_id && nat_beq n.principal_id i)
            db.iam.memberships in
        elim (Bool-cases taken) [
          | inl hit ↦ absurd (ground arith)
          | inr free ↦
              (i, found, not_taken p.organization_id i db.iam.memberships free, ground arith)
        ]
  ]

  pub add_repository_ok :
      (r : RepositoryPolicy) {db' : Db}
      → add_repository p r e db ≡ ok (tt, db')
      → (find r.name db.iam.repositories ≡ none)
        × (db'
            ≡ with_repository
                (record {
                  name = r.name;
                  organization_id = p.organization_id;
                  github_installation_id = r.github_installation_id;
                })
                db)
  unfolding add_repository
  add_repository_ok r {db'} h = elim (Option-cases (find r.name db.iam.repositories)) [
    | inr (old, hit) ↦ absurd (ground arith)
    | inl free ↦ (free, ground arith)
  ]

  pub add_grant_ok :
      (name : Key) (g : MemberPolicy) {db' : Db}
      → add_grant name ids g e db ≡ ok (tt, db')
      → (i : Key) × (id_of g.subject ids ≡ some i)
        × (db' ≡ with_grant (record { repository = name; principal_id = i; role = g.role }) db)
  unfolding add_grant
  add_grant_ok name g {db'} h = elim (Option-cases (id_of g.subject ids)) [
    | inl miss ↦ absurd (ground arith)
    | inr (i, found) ↦
        let taken =
          any (λ n. nat_beq n.repository name && nat_beq n.principal_id i) db.iam.grants in
        elim (Bool-cases taken) [
          | inl hit ↦ absurd (ground arith)
          | inr free ↦ (i, found, ground arith)
        ]
  ]

  pub add_identity_ok :
      (s : SlackPolicy) {db' : Db}
      → add_identity p ids s e db ≡ ok (tt, db')
      → (i : Key) × (id_of s.subject ids ≡ some i)
        × (db'
            ≡ with_identity
                (record {
                  team_id = s.team_id;
                  user_id = s.user_id;
                  principal_id = i;
                  organization_id = p.organization_id;
                })
                db)
  unfolding add_identity
  add_identity_ok s {db'} h =
      elim (Option-cases (find_slack s.team_id s.user_id db.iam.slack_identities)) [
        | inr (old, hit) ↦ absurd (ground arith)
        | inl free ↦ elim (Option-cases (id_of s.subject ids)) [
          | inl miss ↦ absurd (ground arith)
          | inr (i, found) ↦ (i, found, ground arith)
        ]
      ]
