-- ===== src/Provision/Isolation.antt =====
-- The other organizations at the steps of `apply_policy` (apps/api/app/iam.py).
use dev_agent.Base.{
  ◌≡◌, refl, ◌∙◌, Key, Bool, true, false, List, [], ◌∷◌, arith, nat_beq, nat_eq, select, not, inl,
  inr, Bool-cases,
}
use dev_agent.Models.{Db, Iam, Membership, Repository, SlackIdentity, repository_keyed}
use dev_agent.Tx.{Env, ok, Result-cases, for_each, for_each_keeps}
use dev_agent.Provision.{
  Ids, add_member, add_repository, add_grants, add_grant, add_identity, replace_policy,
  clear_organization,
}
use dev_agent.Provision.Document.{OrganizationPolicy, MemberPolicy, RepositoryPolicy, SlackPolicy}
use dev_agent.Provision.Steps.{add_member_ok, add_repository_ok, add_grant_ok, add_identity_ok}

-- The database when the organization's rows are gone, and after each loop.
pub record Replaced (p : OrganizationPolicy) (ids : Ids) (e : Env) (db db' : Db) : Type 0 where
  pub with_members : Db
  pub with_repositories : Db
  pub with_grants : Db
  pub members :
      for_each p.members
        (add_member p ids)
        e
        (record db { iam = clear_organization p.organization_id db.iam })
      ≡ ok (tt, with_members)
  pub repositories :
      for_each p.repositories (add_repository p) e with_members ≡ ok (tt, with_repositories)
  pub grants : for_each p.repositories (add_grants ids) e with_repositories ≡ ok (tt, with_grants)
  pub identities : for_each p.slack_identities (add_identity p ids) e with_grants ≡ ok (tt, db')

module _ (p : OrganizationPolicy) (ids : Ids) (e : Env) (db : Db) where
  pub replace_ok : {db' : Db} → replace_policy p ids e db ≡ ok (tt, db') → Replaced p ids e db db'
  unfolding replace_policy
  replace_ok {db'} h =
      let db0 : Db = record db { iam = clear_organization p.organization_id db.iam } in
      elim (Result-cases (for_each p.members (add_member p ids) e db0)) [
        | inl (x, bad) ↦ absurd (ground arith)
        | inr ((u, db1), m) ↦
            elim (Result-cases (for_each p.repositories (add_repository p) e db1)) [
              | inl (x, bad) ↦ absurd (ground arith)
              | inr ((v, db2), r) ↦
                  elim (Result-cases (for_each p.repositories (add_grants ids) e db2)) [
                    | inl (x, bad) ↦ absurd (ground arith)
                    | inr ((w, db3), g) ↦ record {
                      with_members = db1;
                      with_repositories = db2;
                      with_grants = db3;
                      members = m;
                      repositories = r;
                      grants = g;
                      identities = ground arith;
                    }
                  ]
            ]
      ]

  -- A part of the database that no step writes.
  pub replace_keeps :
      {A : Type 0} (part : Db → A)
      → (part (record db { iam = clear_organization p.organization_id db.iam }) ≡ part db)
      → ((m : MemberPolicy) (d d' : Db) → add_member p ids m e d ≡ ok (tt, d') → part d' ≡ part d)
      → ((r : RepositoryPolicy) (d d' : Db)
          → add_repository p r e d ≡ ok (tt, d')
          → part d' ≡ part d)
      → ((r : RepositoryPolicy) (d d' : Db) → add_grants ids r e d ≡ ok (tt, d') → part d' ≡ part d)
      → ((s : SlackPolicy) (d d' : Db) → add_identity p ids s e d ≡ ok (tt, d') → part d' ≡ part d)
      → {db' : Db} → replace_policy p ids e db ≡ ok (tt, db')
      → part db' ≡ part db
  replace_keeps part cleared on_member on_repository on_grants on_identity {db'} h =
      let r = replace_ok h in
      let db0 : Db = record db { iam = clear_organization p.organization_id db.iam } in
      for_each_keeps part (add_identity p ids) e on_identity p.slack_identities r.with_grants db'
        r.identities
      ∙ for_each_keeps part (add_grants ids) e on_grants p.repositories r.with_repositories
          r.with_grants r.grants
      ∙ for_each_keeps part (add_repository p) e on_repository p.repositories r.with_members
          r.with_repositories r.repositories
      ∙ for_each_keeps part (add_member p ids) e on_member p.members db0 r.with_members r.members
      ∙ cleared

-- The rows of another organization.
abbrev pub others : Key → Iam → List Membership × List Repository × List SlackIdentity
others o iam = (
  select (λ m. nat_beq m.organization_id o) iam.memberships,
  select (λ r. nat_beq r.organization_id o) iam.repositories,
  select (λ s. nat_beq s.organization_id o) iam.slack_identities,
)

module _ {A : Type 0} (p q : A → Bool) where
  select-select :
      (xs : List A) → ((x : A) → p x ≡ true → q x ≡ true) → select p (select q xs) ≡ select p xs
  select-select [] h = refl
  select-select (x ∷ xs) h = elim (Bool-cases (p x)) [
    | inl hit ↦ rw (h x hit) (rw hit (rw (select-select xs h) refl))
    | inr miss ↦ elim (Bool-cases (q x)) [
      | inl kept ↦ rw kept (rw miss (select-select xs h))
      | inr gone ↦ rw gone (rw miss (select-select xs h))
    ]
  ]

module _ (p : OrganizationPolicy) (ids : Ids) (e : Env) (o : Key)
    (other : nat_beq p.organization_id o ≡ false) where
  elsewhere : (k : Key) → nat_beq k o ≡ true → not (nat_beq k p.organization_id) ≡ true
  elsewhere k h = ground arith

  add_grants-others :
      (r : RepositoryPolicy) (d d' : Db)
      → add_grants ids r e d ≡ ok (tt, d')
      → others o d'.iam ≡ others o d.iam
  add_grants-others r d d' h =
      for_each_keeps (λ db. others o db.iam) (add_grant r.name ids) e
        (λ g c c' k. rw (add_grant_ok p ids e c r.name g k).2 refl) r.grants d d' h

  pub replace_others :
      (db : Db) {db' : Db}
      → replace_policy p ids e db ≡ ok (tt, db')
      → others o db'.iam ≡ others o db.iam
  unfolding clear_organization
  replace_others db h =
      replace_keeps p ids e db (λ d. others o d.iam)
        (rw (select-select _ _ db.iam.memberships (λ x. elsewhere x.organization_id)) (
          rw (select-select _ _ db.iam.repositories (λ x. elsewhere x.organization_id)) (
            rw (select-select _ _ db.iam.slack_identities (λ x. elsewhere x.organization_id))
              refl)))
        (λ m d d' k. rw (add_member_ok p ids e d m k).3 (rw other refl))
        (λ r d d' k. rw (add_repository_ok p ids e d r k).1 (rw other refl)) add_grants-others
        (λ s d d' k. rw (add_identity_ok p ids e d s k).2 (rw other refl)) h
