-- ===== src/Provision/SignIn.antt =====
-- The sign-in of the members of an applied policy (`apply_policy` of apps/api/app/iam.py,
-- `actor_from_identity` of apps/api/app/authorization.py).
use dev_agent.Base.{
  ◌≡◌, refl, sym, ◌∙◌, Key, true, false, none, some, List, [], ◌∷◌, arith, nat_beq, nat_eq, All,
  any, ◌&&◌, inl, inr, Bool-cases, Option-cases, is_some, subst, holds,
}
use dev_agent.Base.Table.{find}
use dev_agent.Models.{Db, Organization, organization_keyed, ident}
use dev_agent.Authorization.{find_organization, actor_from_identity, Actor}
use dev_agent.Tx.{Env, ok, for_each_keeps}
use dev_agent.Provision.{
  Ids, add_repository, add_grant, add_grants, add_identity, bind_organization, apply_policy,
  replace_policy, clear_organization,
}
use dev_agent.Provision.Document.{OrganizationPolicy, MemberPolicy}
use dev_agent.Provision.Steps.{add_member_ok, add_repository_ok, add_grant_ok, add_identity_ok}
use dev_agent.Provision.Isolation.{replace_ok, replace_keeps}
use dev_agent.Provision.Apply.{apply_ok, resolve_members_ok}
use dev_agent.Provision.Members.{
  Known, Member, All-zip, resolve_members-Known, members-Member, find_principal_facts,
}

module _ (p : OrganizationPolicy) where
  free_binding :
      (os : List Organization)
      → any (λ o. holds p.issuer o.issuer && holds p.claim o.claim) os ≡ false
      → find_organization p.issuer p.claim os ≡ none
  unfolding find_organization
  free_binding [] h = refl
  free_binding (o ∷ os) h = ground (arith, free_binding os)

  own_binding :
      (os : List Organization) {o : Organization}
      → find p.organization_id os ≡ some o
      → (holds p.issuer o.issuer && holds p.claim o.claim) ≡ true
      → is_some (find_organization p.issuer p.claim os) ≡ true
  unfolding find_organization find
  own_binding [] h b = absurd (ground arith)
  own_binding (x ∷ os) {o} h b =
      elim (Bool-cases (holds p.issuer x.issuer && holds p.claim x.claim)) [
        | inl hit ↦ rw hit refl
        | inr miss ↦ elim (Bool-cases (nat_beq x.id p.organization_id)) [
          | inl own ↦
              let same : x ≡ o = ground arith in
              let not_bound : (holds p.issuer o.issuer && holds p.claim o.claim) ≡ false =
                subst (λ z. (holds p.issuer z.issuer && holds p.claim z.claim) ≡ false) same miss in
              absurd (ground arith)
          | inr next ↦ rw miss (own_binding os {o = o} (ground arith) b)
        ]
      ]

  -- The identity binding leads to the policy's organization.
  bind_found :
      (e : Env) (db : Db) {db' : Db}
      → ((o : Organization)
          → find_organization p.issuer p.claim db.iam.organizations ≡ some o
          → o.id ≡ p.organization_id)
      → bind_organization p (find p.organization_id db.iam.organizations) e db ≡ ok (tt, db')
      → (o : Organization) × (find_organization p.issuer p.claim db'.iam.organizations ≡ some o)
        × (o.id ≡ p.organization_id)
  unfolding bind_organization find_organization
  bind_found e db {db'} unique h =
      elim (Option-cases (find p.organization_id db.iam.organizations)) [
        | inl new ↦
            elim (Bool-cases
              (any (λ o. holds p.issuer o.issuer && holds p.claim o.claim) db.iam.organizations)) [
                | inl hit ↦ absurd (ground arith)
                | inr free ↦ (
                  record { id = p.organization_id; issuer = some p.issuer; claim = some p.claim },
                  ground arith,
                  refl,
                )
              ]
        | inr (o, old) ↦ elim (Bool-cases (holds p.issuer o.issuer && holds p.claim o.claim)) [
          | inr miss ↦ absurd (ground arith)
          | inl hit ↦
              let there = own_binding db.iam.organizations old hit in
              elim (Option-cases (find_organization p.issuer p.claim db.iam.organizations)) [
                | inl none_ ↦ absurd (ground arith)
                | inr (o', found) ↦ (o', ground arith, unique o' found)
              ]
        ]
      ]

module _ (p : OrganizationPolicy) (ids : Ids) (e : Env) (db : Db) where
  -- What the replacement leaves of organizations and principals.
  replace_binding :
      {db' : Db}
      → replace_policy p ids e db ≡ ok (tt, db')
      → (d : Db) × (db'.iam.organizations ≡ db.iam.organizations)
        × (db'.iam.principals ≡ db.iam.principals)
        × All (Member p ids d.iam.memberships) p.members
        × (db'.iam.memberships ≡ d.iam.memberships)
  unfolding clear_organization
  replace_binding {db'} h =
      let r = replace_ok p ids e db h in
      let db0 : Db = record db { iam = clear_organization p.organization_id db.iam } in
      (
        r.with_members,
        replace_keeps p ids e db (λ d. d.iam.organizations) refl
            (λ m d d' k. rw (add_member_ok p ids e d m k).3 refl)
            (λ r d d' k. rw (add_repository_ok p ids e d r k).1 refl)
            (λ r d d' k.
              for_each_keeps (λ c. c.iam.organizations) (add_grant r.name ids) e
                (λ g c c' l. rw (add_grant_ok p ids e c r.name g l).2 refl) r.grants d d' k)
            (λ s d d' k. rw (add_identity_ok p ids e d s k).2 refl) h,
        replace_keeps p ids e db (λ d. d.iam.principals) refl
            (λ m d d' k. rw (add_member_ok p ids e d m k).3 refl)
            (λ r d d' k. rw (add_repository_ok p ids e d r k).1 refl)
            (λ r d d' k.
              for_each_keeps (λ c. c.iam.principals) (add_grant r.name ids) e
                (λ g c c' l. rw (add_grant_ok p ids e c r.name g l).2 refl) r.grants d d' k)
            (λ s d d' k. rw (add_identity_ok p ids e d s k).2 refl) h,
        members-Member p ids e p.members db0 r.with_members r.members,
        for_each_keeps (λ d. d.iam.memberships) (add_identity p ids) e
              (λ s d d' k. rw (add_identity_ok p ids e d s k).2 refl) p.slack_identities
              r.with_grants db' r.identities
            ∙ for_each_keeps (λ d. d.iam.memberships) (add_grants ids) e
                (λ r d d' k.
                  for_each_keeps (λ c. c.iam.memberships) (add_grant r.name ids) e
                    (λ g c c' l. rw (add_grant_ok p ids e c r.name g l).2 refl) r.grants d d' k)
                p.repositories r.with_repositories r.with_grants r.grants
            ∙ for_each_keeps (λ d. d.iam.memberships) (add_repository p) e
                (λ q d d' k. rw (add_repository_ok p ids e d q k).1 refl) p.repositories
                r.with_members r.with_repositories r.repositories,
      )

-- The actor that a member signs in as.
abbrev pub member_actor : OrganizationPolicy → MemberPolicy → Key → Actor
member_actor p m i = record {
  subject = m.subject;
  role = some m.role;
  identity_provider = ident p.issuer;
  organization = p.organization_id;
  principal_id = some i;
}

module _ (p : OrganizationPolicy) (e : Env) (db : Db) (ids : Ids) (o : Organization) where
  sign_in :
      (m : MemberPolicy)
      → find_organization p.issuer p.claim db.iam.organizations ≡ some o
      → o.id ≡ p.organization_id
      → Known p.issuer db.iam.principals ids m
      → Member p ids db.iam.memberships m
      → (i : Key) × (actor_from_identity p.issuer m.subject p.claim e db
          ≡ ok (member_actor p m i, db))
  unfolding actor_from_identity
  sign_in m bound own k n =
      let f = find_principal_facts p.issuer m.subject db.iam.principals k.1 in
      (k.0.id, ground (arith, k.1, k.2, n.1, n.2, f.0, f.1))

module _ (new_id : Key → Key → Key) (p : OrganizationPolicy) (e : Env) (db : Db) {db' : Db} where
  -- Once a policy is applied, each of its members who signs in with the organization's issuer and claim
  -- is an actor of that organization with the policy's role. (An organization that already has this
  -- issuer and claim is the policy's own.)
  pub apply_policy-sign_in :
      ((o : Organization)
        → find_organization p.issuer p.claim db.iam.organizations ≡ some o
        → o.id ≡ p.organization_id)
      → apply_policy new_id p e db ≡ ok (tt, db')
      → All
          (λ m.
            (i : Key) × (actor_from_identity p.issuer m.subject p.claim e db'
              ≡ ok (member_actor p m i, db')))
          p.members
  apply_policy-sign_in unique h =
      let a = apply_ok new_id p e db h in
      let b = bind_found p e db unique a.binding in
      let r = resolve_members_ok new_id p.issuer e p.members a.bound a.resolving in
      let k = resolve_members-Known new_id p.issuer e p.members a.bound a.resolving in
      let l = replace_binding p a.ids e a.resolved a.replacing in
      let same : db'.iam.organizations ≡ a.bound.iam.organizations = l.1 ∙ rw r.1 refl in
      let bound : find_organization p.issuer p.claim db'.iam.organizations ≡ some b.0 =
        subst (λ os. find_organization p.issuer p.claim os ≡ some b.0) (sym same) b.1 in
      let known : All (Known p.issuer db'.iam.principals a.ids) p.members =
        subst (λ ps. All (Known p.issuer ps a.ids) p.members) (sym l.2) k in
      let rows : All (Member p a.ids db'.iam.memberships) p.members =
        subst (λ ms. All (Member p a.ids ms) p.members) (sym l.4) l.3 in
      All-zip (λ m k n. sign_in p e db' a.ids b.0 m bound b.2 k n) p.members known rows
