-- ===== src/Provision/Apply.antt =====
-- The whole of `apply_policy` (apps/api/app/iam.py), and what is not the policy's.
use dev_agent.Base.{
  ◌≡◌, refl, ◌∙◌, Key, true, false, Option, none, some, List, [], ◌∷◌, arith, nat_beq, nat_eq,
  select, contains, inl, inr, Bool-cases, Option-cases, is_some, holds, any, ◌&&◌,
}
use dev_agent.Base.Table.{find, keys_where}
use dev_agent.Models.{Db, Organization, Principal, repository_keyed, organization_keyed}
use dev_agent.Authorization.{find_principal}
use dev_agent.Tx.{Env, ok, Result-cases, for_each_keeps}
use dev_agent.Provision.{
  Ids, add_grant, replace_policy, apply_policy, bind_organization, resolve_members, resolve_member,
}
use dev_agent.Provision.Document.{OrganizationPolicy, MemberPolicy}
use dev_agent.Provision.Steps.{add_member_ok, add_repository_ok, add_grant_ok, add_identity_ok}
use dev_agent.Provision.Isolation.{others, replace_others, replace_keeps}
use dev_agent.Provision.Grants.{replace_grants}

abbrev pub with_principals : List Principal → Db → Db
with_principals ps db = record db { iam = record db.iam { principals = ps } }

abbrev pub with_organizations : List Organization → Db → Db
with_organizations os db = record db { iam = record db.iam { organizations = os } }

module _ (p : OrganizationPolicy) (e : Env) where
  pub bind_ok :
      (o : Option Organization) (db : Db) {db' : Db}
      → bind_organization p o e db ≡ ok (tt, db')
      → (os : List Organization) × (db' ≡ with_organizations os db)
  unfolding bind_organization
  bind_ok none db h =
      elim (Bool-cases
        (any (λ o. holds p.issuer o.issuer && holds p.claim o.claim) db.iam.organizations)) [
          | inl hit ↦ absurd (ground arith)
          | inr free ↦ (
            (record { id = p.organization_id; issuer = some p.issuer; claim = some p.claim })
                ∷ db.iam.organizations,
            ground arith,
          )
        ]
  bind_ok (some o) db h = elim (Bool-cases (holds p.issuer o.issuer && holds p.claim o.claim)) [
    | inl hit ↦ (db.iam.organizations, ground arith)
    | inr miss ↦ absurd (ground arith)
  ]

module _ (new_id : Key → Key → Key) (issuer : Key) (e : Env) where
  pub resolve_member_ok :
      (m : MemberPolicy) (db : Db) {i : Key} {db' : Db}
      → resolve_member new_id issuer m e db ≡ ok (i, db')
      → (ps : List Principal) × (db' ≡ with_principals ps db)
  unfolding resolve_member
  resolve_member_ok m db h =
      elim (Option-cases (find_principal issuer m.subject db.iam.principals)) [
        | inl new ↦ (
          (record { id = new_id issuer m.subject; issuer = issuer; subject = m.subject })
              ∷ db.iam.principals,
          ground arith,
        )
        | inr (p, old) ↦ (db.iam.principals, ground arith)
      ]

  pub resolve_members_ok :
      (ms : List MemberPolicy) (db : Db) {ids : Ids} {db' : Db}
      → resolve_members new_id issuer ms e db ≡ ok (ids, db')
      → (ps : List Principal) × (db' ≡ with_principals ps db)
  unfolding resolve_members
  resolve_members_ok [] db h = (db.iam.principals, ground arith)
  resolve_members_ok (m ∷ ms) db h = elim (Result-cases (resolve_member new_id issuer m e db)) [
    | inl (x, miss) ↦ absurd (ground arith)
    | inr ((i, db1), good) ↦ elim (Result-cases (resolve_members new_id issuer ms e db1)) [
      | inl (x, miss) ↦ absurd (ground arith)
      | inr ((ids, db2), rest) ↦
          let a = resolve_member_ok m db good in
          let b = resolve_members_ok ms db1 rest in (b.0, ground (arith, a.1, b.1))
    ]
  ]

-- The three parts of an application that returns.
pub record Applied (new_id : Key → Key → Key) (p : OrganizationPolicy) (e : Env) (db db' : Db)
    : Type 0 where
  pub bound : Db
  pub resolved : Db
  pub ids : Ids
  pub binding :
      bind_organization p (find p.organization_id db.iam.organizations) e db ≡ ok (tt, bound)
  pub resolving : resolve_members new_id p.issuer p.members e bound ≡ ok (ids, resolved)
  pub replacing : replace_policy p ids e resolved ≡ ok (tt, db')

module _ (new_id : Key → Key → Key) (p : OrganizationPolicy) (e : Env) (db : Db) {db' : Db} where
  pub apply_ok : apply_policy new_id p e db ≡ ok (tt, db') → Applied new_id p e db db'
  unfolding apply_policy
  apply_ok h =
      elim (Result-cases (bind_organization p (find p.organization_id db.iam.organizations) e db)) [
        | inl (x, miss) ↦ absurd (ground arith)
        | inr ((u, db1), good) ↦
            elim (Result-cases (resolve_members new_id p.issuer p.members e db1)) [
              | inl (x, miss) ↦ absurd (ground arith)
              | inr ((ids, db2), known) ↦ record {
                bound = db1;
                resolved = db2;
                ids = ids;
                binding = good;
                resolving = known;
                replacing = ground arith;
              }
            ]
      ]

  -- A part of the database outside the organizations and the principals is what the replacement
  -- makes of it.
  from_resolved :
      {A : Type 0} (part : Db → A)
      → (a : Applied new_id p e db db')
      → ((d : Db) (os : List Organization) → part (with_organizations os d) ≡ part d)
      → ((d : Db) (ps : List Principal) → part (with_principals ps d) ≡ part d)
      → part a.resolved ≡ part db
  from_resolved part a keeps_os keeps_ps =
      let b = bind_ok p e (find p.organization_id db.iam.organizations) db a.binding in
      let r = resolve_members_ok new_id p.issuer e p.members a.bound a.resolving in
      let first : part a.bound ≡ part db = rw b.1 (keeps_os db b.0) in
      let second : part a.resolved ≡ part a.bound = rw r.1 (keeps_ps a.bound r.0) in second ∙ first

  -- A policy that is applied leaves the memberships, repositories and chat identities of another
  -- organization `o` as they were, the grants on a repository that is not the policy's organization's own,
  -- and every table but those of the policy.
  pub apply_policy-Isolated :
      apply_policy new_id p e db ≡ ok (tt, db')
      → (o name : Key) → nat_beq p.organization_id o ≡ false
      → is_some (find name db.iam.repositories) ≡ true
      → contains name
          (keys_where (λ r. nat_beq r.organization_id p.organization_id) db.iam.repositories)
        ≡ false
      → (others o db'.iam ≡ others o db.iam)
        × (select (λ g. nat_beq g.repository name) db'.iam.grants
            ≡ select (λ g. nat_beq g.repository name) db.iam.grants)
        × (record db' { iam = db.iam } ≡ db)
  apply_policy-Isolated h o name other there apart =
      let a = apply_ok h in
      let same : a.resolved.iam.repositories ≡ db.iam.repositories =
        from_resolved (λ d. d.iam.repositories) a (λ d os. refl) (λ d ps. refl) in
      let rest : Db → Db = λ d. record d { iam = db.iam } in
      (
        replace_others p a.ids e o other a.resolved a.replacing
            ∙ from_resolved (λ d. others o d.iam) a (λ d os. refl) (λ d ps. refl),
        replace_grants p e name a.ids a.resolved (rw same there) (rw same apart) a.replacing
            ∙ from_resolved (λ d. select (λ g. nat_beq g.repository name) d.iam.grants) a
                (λ d os. refl) (λ d ps. refl),
        replace_keeps p a.ids e a.resolved rest refl
              (λ m d d' k. rw (add_member_ok p a.ids e d m k).3 refl)
              (λ r d d' k. rw (add_repository_ok p a.ids e d r k).1 refl)
              (λ r d d' k.
                for_each_keeps rest (add_grant r.name a.ids) e
                  (λ g c c' l. rw (add_grant_ok p a.ids e c r.name g l).2 refl) r.grants d d' k)
              (λ s d d' k. rw (add_identity_ok p a.ids e d s k).2 refl) a.replacing
            ∙ from_resolved rest a (λ d os. refl) (λ d ps. refl),
      )
