-- ===== src/Provision/Grants.antt =====
-- The grants and the other tables at the steps of `apply_policy` (apps/api/app/iam.py).
use dev_agent.Base.{
  ◌≡◌, refl, ◌∙◌, Key, true, false, List, [], ◌∷◌, arith, nat_beq, nat_eq, select, not, contains,
  inl, inr, Bool-cases, is_some, All,
}
use dev_agent.Base.Table.{find, keys_where}
use dev_agent.Models.{Db, Repository, RepositoryGrant, repository_keyed, organization_keyed}
use dev_agent.Tx.{Env, ok, Result-cases, for_each, for_each_keeps}
use dev_agent.Provision.{
  Ids, add_member, add_repository, add_grants, add_grant, add_identity, replace_policy,
  clear_organization,
}
use dev_agent.Provision.Document.{OrganizationPolicy, RepositoryPolicy}
use dev_agent.Provision.Steps.{add_member_ok, add_repository_ok, add_grant_ok, add_identity_ok}
use dev_agent.Provision.Isolation.{replace_ok}

-- A repository that another organization owns stays in the table, so the policy cannot name it.
module _ (p : OrganizationPolicy) (e : Env) (name : Key) where
  find_kept :
      (rs : List Repository)
      → is_some (find name rs) ≡ true
      → contains name (keys_where (λ r. nat_beq r.organization_id p.organization_id) rs) ≡ false
      → is_some (find name (select (λ r. not (nat_beq r.organization_id p.organization_id)) rs))
        ≡ true
  unfolding find keys_where
  find_kept [] h k = cc
  find_kept (r ∷ rs) h k = ground (arith, find_kept rs)

  add_repositories_ok :
      (rs : List RepositoryPolicy) (db db' : Db)
      → is_some (find name db.iam.repositories) ≡ true
      → for_each rs (add_repository p) e db ≡ ok (tt, db')
      → All (λ r. nat_beq r.name name ≡ false) rs
  unfolding for_each find
  add_repositories_ok [] db db' there h = tt
  add_repositories_ok (r ∷ rs) db db' there h = elim (Result-cases (add_repository p r e db)) [
    | inl (x, miss) ↦ absurd (ground arith)
    | inr ((u, db1), good) ↦
        let s = add_repository_ok p [] e db r good in
        let differs : nat_beq r.name name ≡ false = ground (arith, s.0) in
        let still : is_some (find name db1.iam.repositories) ≡ true = rw s.1 (rw differs there) in
        (differs, add_repositories_ok rs db1 db' still (ground arith))
  ]

  abbrev on_repository : Db → List RepositoryGrant
  on_repository db = select (λ g. nat_beq g.repository name) db.iam.grants

  add_grants_ok :
      (ids : Ids) (rs : List RepositoryPolicy) (db db' : Db)
      → All (λ r. nat_beq r.name name ≡ false) rs
      → for_each rs (add_grants ids) e db ≡ ok (tt, db')
      → on_repository db' ≡ on_repository db
  unfolding for_each
  add_grants_ok ids [] db db' apart h = ground arith
  add_grants_ok ids (r ∷ rs) db db' apart h = elim (Result-cases (add_grants ids r e db)) [
    | inl (x, miss) ↦ absurd (ground arith)
    | inr ((u, db1), good) ↦
        add_grants_ok ids rs db1 db' apart.1 (ground arith)
        ∙ for_each_keeps on_repository (add_grant r.name ids) e
            (λ g d d' k. rw (add_grant_ok p ids e d r.name g k).2 (rw apart.0 refl)) r.grants db db1
            good
  ]

  cleared_grants :
      (names : List Key) (gs : List RepositoryGrant)
      → contains name names ≡ false
      → select (λ g. nat_beq g.repository name) (select (λ g. not (contains g.repository names)) gs)
        ≡ select (λ g. nat_beq g.repository name) gs
  cleared_grants names [] h = refl
  cleared_grants names (g ∷ gs) h = elim (Bool-cases (nat_beq g.repository name)) [
    | inl hit ↦
        let same : g.repository ≡ name = ground arith in
        rw same (rw h (rw (cleared_grants names gs h) refl))
    | inr miss ↦ elim (Bool-cases (contains g.repository names)) [
      | inl gone ↦ rw gone (rw miss (cleared_grants names gs h))
      | inr kept ↦ rw kept (rw miss (cleared_grants names gs h))
    ]
  ]

  pub replace_grants :
      (ids : Ids) (db : Db) {db' : Db}
      → is_some (find name db.iam.repositories) ≡ true
      → contains name
          (keys_where (λ r. nat_beq r.organization_id p.organization_id) db.iam.repositories)
        ≡ false
      → replace_policy p ids e db ≡ ok (tt, db')
      → on_repository db' ≡ on_repository db
  unfolding clear_organization
  replace_grants ids db {db'} there apart h =
      let r = replace_ok p ids e db h in
      let db0 : Db = record db { iam = clear_organization p.organization_id db.iam } in
      let kept : is_some (find name r.with_members.iam.repositories) ≡ true =
        rw
          (for_each_keeps (λ d. d.iam.repositories) (add_member p ids) e
            (λ m d d' k. rw (add_member_ok p ids e d m k).3 refl) p.members db0 r.with_members
            r.members)
          (find_kept db.iam.repositories there apart) in
      let named =
        add_repositories_ok p.repositories r.with_members r.with_repositories kept r.repositories in
      for_each_keeps on_repository (add_identity p ids) e
        (λ s d d' k. rw (add_identity_ok p ids e d s k).2 refl) p.slack_identities r.with_grants db'
        r.identities
      ∙ add_grants_ok ids p.repositories r.with_repositories r.with_grants named r.grants
      ∙ for_each_keeps on_repository (add_repository p) e
          (λ q d d' k. rw (add_repository_ok p ids e d q k).1 refl) p.repositories r.with_members
          r.with_repositories r.repositories
      ∙ for_each_keeps on_repository (add_member p ids) e
          (λ m d d' k. rw (add_member_ok p ids e d m k).3 refl) p.members db0 r.with_members
          r.members
      ∙ cleared_grants _ db.iam.grants apart
