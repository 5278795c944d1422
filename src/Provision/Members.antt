-- ===== src/Provision/Members.antt =====
-- The members of an applied policy, one by one (`apply_policy` of apps/api/app/iam.py with
-- `actor_from_identity` of apps/api/app/authorization.py).
use dev_agent.Base.{
  ◌≡◌, sym, Key, some, List, [], ◌∷◌, arith, nat_beq, nat_eq, All, ◌&&◌, inl, inr, Bool-cases,
  and-true, Option-cases, subst,
}
use dev_agent.Models.{Db, Principal, Membership, organization_keyed}
use dev_agent.Authorization.{find_principal, find_membership}
use dev_agent.Tx.{Env, ok, Result-cases, for_each}
use dev_agent.Provision.{Ids, id_of, add_member, resolve_members, resolve_member}
use dev_agent.Provision.Document.{OrganizationPolicy, MemberPolicy}
use dev_agent.Provision.Steps.{add_member_ok, member_row}

pub All-map :
    {A : Type 0} {P Q : A → Type 0} → ((x : A) → P x → Q x) → (xs : List A) → All P xs → All Q xs
All-map f [] h = tt
All-map f (x ∷ xs) h = (f x h.0, All-map f xs h.1)

pub All-zip :
    {A : Type 0} {P Q R : A → Type 0}
    → ((x : A) → P x → Q x → R x)
    → (xs : List A) → All P xs
    → All Q xs
    → All R xs
All-zip f [] h k = tt
All-zip f (x ∷ xs) h k = (f x h.0 k.0, All-zip f xs h.1 k.1)

pub find_principal_facts :
    (issuer subject : Key) (ps : List Principal) {p : Principal}
    → find_principal issuer subject ps ≡ some p
    → (p.issuer ≡ issuer) × (p.subject ≡ subject)
unfolding find_principal
find_principal_facts issuer subject [] h = absurd (ground arith)
find_principal_facts issuer subject (q ∷ ps) {p} h =
    elim (Bool-cases (nat_beq q.issuer issuer && nat_beq q.subject subject)) [
      | inl hit ↦
          let b = and-true (nat_beq q.issuer issuer) (nat_beq q.subject subject) hit in
          (ground arith, ground arith)
      | inr miss ↦ find_principal_facts issuer subject ps {p = p} (ground arith)
    ]

-- A member's principal in the table, by its id.
abbrev pub Known : Key → List Principal → Ids → MemberPolicy → Type 0
Known issuer ps ids m =
    (pr : Principal) × (find_principal issuer m.subject ps ≡ some pr)
    × (id_of m.subject ids ≡ some pr.id)

module _ (new_id : Key → Key → Key) (issuer : Key) (e : Env) where
  resolve_member_known :
      (m : MemberPolicy) (db : Db) {i : Key} {db' : Db}
      → resolve_member new_id issuer m e db ≡ ok (i, db')
      → (pr : Principal) × (find_principal issuer m.subject db'.iam.principals ≡ some pr)
        × (pr.id ≡ i)
  unfolding resolve_member find_principal
  resolve_member_known m db h =
      elim (Option-cases (find_principal issuer m.subject db.iam.principals)) [
        | inl new ↦ (
          record { id = new_id issuer m.subject; issuer = issuer; subject = m.subject },
          ground arith,
          ground arith,
        )
        | inr (p, old) ↦ (p, ground arith, ground arith)
      ]

  resolve_member_keeps :
      (m : MemberPolicy) (db : Db) {i : Key} {db' : Db}
      → resolve_member new_id issuer m e db ≡ ok (i, db')
      → (s : Key) {pr : Principal} → find_principal issuer s db.iam.principals ≡ some pr
      → find_principal issuer s db'.iam.principals ≡ some pr
  unfolding resolve_member find_principal
  resolve_member_keeps m db h s f =
      elim (Option-cases (find_principal issuer m.subject db.iam.principals)) [
        | inl new ↦ elim (Bool-cases (nat_beq m.subject s)) [
          | inl hit ↦ absurd (ground arith)
          | inr miss ↦ ground arith
        ]
        | inr (p, old) ↦ ground arith
      ]

  resolve_members_keeps :
      (ms : List MemberPolicy) (db : Db) {ids : Ids} {db' : Db}
      → resolve_members new_id issuer ms e db ≡ ok (ids, db')
      → (s : Key) {pr : Principal} → find_principal issuer s db.iam.principals ≡ some pr
      → find_principal issuer s db'.iam.principals ≡ some pr
  unfolding resolve_members
  resolve_members_keeps [] db h s f = ground arith
  resolve_members_keeps (m ∷ ms) db h s f =
      elim (Result-cases (resolve_member new_id issuer m e db)) [
        | inl (x, miss) ↦ absurd (ground arith)
        | inr ((i, db1), good) ↦ elim (Result-cases (resolve_members new_id issuer ms e db1)) [
          | inl (x, miss) ↦ absurd (ground arith)
          | inr ((ids, db2), rest) ↦
              ground
                (arith, resolve_members_keeps ms db1 rest s (resolve_member_keeps m db good s f))
        ]
      ]

  pub resolve_members-Known :
      (ms : List MemberPolicy) (db : Db) {ids : Ids} {db' : Db}
      → resolve_members new_id issuer ms e db ≡ ok (ids, db')
      → All (Known issuer db'.iam.principals ids) ms
  unfolding resolve_members id_of
  resolve_members-Known [] db h = tt
  resolve_members-Known (m ∷ ms) db {ids} {db'} h =
      elim (Result-cases (resolve_member new_id issuer m e db)) [
        | inl (x, miss) ↦ absurd (ground arith)
        | inr ((i, db1), good) ↦ elim (Result-cases (resolve_members new_id issuer ms e db1)) [
          | inl (x, miss) ↦ absurd (ground arith)
          | inr ((others, db2), rest) ↦
              let k = resolve_member_known m db good in
              let still : find_principal issuer m.subject db2.iam.principals ≡ some k.0 =
                resolve_members_keeps ms db1 rest m.subject k.1 in
              let is : (ids ≡ (m.subject, i) ∷ others) × (db' ≡ db2) = ground arith in
              let tail : All (Known issuer db2.iam.principals ((m.subject, i) ∷ others)) ms =
                All-map
                  (λ m' q. elim (Bool-cases (nat_beq m.subject m'.subject)) [
                    | inl same ↦ (q.0, q.1, ground (arith, k.2, still, q.1))
                    | inr differs ↦ (q.0, q.1, rw differs q.2)
                  ])
                  ms (resolve_members-Known ms db1 rest) in
              subst (λ j. All (Known issuer db'.iam.principals j) (m ∷ ms)) (sym is.0)
                (subst (λ d. All (Known issuer d.iam.principals ((m.subject, i) ∷ others)) (m ∷ ms))
                  (sym is.1) ((k.0, still, ground (arith, k.2)), tail))
        ]
      ]

module _ (p : OrganizationPolicy) (ids : Ids) where
  -- A member's row, by the id of its principal.
  abbrev pub Member : List Membership → MemberPolicy → Type 0
  Member rows m =
      (i : Key) × (id_of m.subject ids ≡ some i)
      × (find_membership p.organization_id i rows ≡ some (member_row p i m))

module _ (p : OrganizationPolicy) (ids : Ids) (e : Env) where
  members_keep :
      (ms : List MemberPolicy) (db db' : Db)
      → for_each ms (add_member p ids) e db ≡ ok (tt, db')
      → (i : Key) {n : Membership} → find_membership p.organization_id i db.iam.memberships ≡ some n
      → find_membership p.organization_id i db'.iam.memberships ≡ some n
  unfolding for_each find_membership
  members_keep [] db db' h i f = ground arith
  members_keep (m ∷ ms) db db' h i f = elim (Result-cases (add_member p ids m e db)) [
    | inl (x, miss) ↦ absurd (ground arith)
    | inr ((u, db1), good) ↦
        let a = add_member_ok p ids e db m good in
        members_keep ms db1 db' (ground arith) i (elim (Bool-cases (nat_beq a.0 i)) [
          | inl hit ↦ absurd (ground (arith, a.2))
          | inr miss ↦ ground (arith, a.3)
        ])
  ]

  pub members-Member :
      (ms : List MemberPolicy) (db db' : Db)
      → for_each ms (add_member p ids) e db ≡ ok (tt, db')
      → All (Member p ids db'.iam.memberships) ms
  unfolding for_each find_membership
  members-Member [] db db' h = tt
  members-Member (m ∷ ms) db db' h = elim (Result-cases (add_member p ids m e db)) [
    | inl (x, miss) ↦ absurd (ground arith)
    | inr ((u, db1), good) ↦
        let a = add_member_ok p ids e db m good in
        let rest : for_each ms (add_member p ids) e db1 ≡ ok (tt, db') = ground arith in
        let here : find_membership p.organization_id a.0 db1.iam.memberships
            ≡ some (member_row p a.0 m) =
          ground (arith, a.3) in
        ((a.0, a.1, members_keep ms db1 db' rest a.0 here), members-Member ms db1 db' rest)
  ]
