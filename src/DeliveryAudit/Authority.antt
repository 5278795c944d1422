-- ===== src/DeliveryAudit/Authority.antt =====
-- What `delivery_authority` of apps/api/app/delivery_audit.py asks for.
use dev_agent.Base.{
  ℕ, ◌≡◌, refl, Key, Option, some, Bool, true, arith, ◌&&◌, Option-cases, Bool-cases, inl, inr, ap,
  sym, subst, ◌∙◌, and-true,
}
use dev_agent.Base.Table.{find, find-key}
use dev_agent.Models.{
  Db, Fields, WorkItem, AuditRecord, DeliveryJob, DeliveryBundle, get_field, is_text, as_count,
  as_key, audit_keyed, job_keyed, bundle_keyed, work_keyed,
}
use dev_agent.Audit.{is_approval, is_human, may_approve}
use dev_agent.DeliveryAudit.{
  DeliveryAuthority, is_act_on, decides_delivery, decides_bundle, is_approval_of, authority_of,
  delivery_authority, is_count, is_key,
}
use dev_agent.Tx.{ok}

-- What an audit record says that approves a bundle for a work item.
pub record Approves (item : WorkItem) (bundle : DeliveryBundle) (source : AuditRecord)
    : Type 0 where
  pub an_approval : is_approval source.action ≡ true
  pub by_human : is_human source.transport ≡ true
  pub organization : source.organization_id ≡ item.organization_id
  pub repository : source.repository ≡ item.repository
  pub work : source.work_item_id ≡ item.id
  pub correlation : source.correlation_id ≡ item.correlation_id
  pub permitted : may_approve source.effective_role ≡ true
  pub decided : is_text "approve" (get_field "decision" source.details) ≡ true
  pub version : as_count (get_field "work_version_after" source.details) ≡ some item.version
  pub digest : as_key (get_field "delivery_bundle_sha256" source.details) ≡ some bundle.sha256

-- What an accepted authority rests on.
pub record Authorizes (item : WorkItem) (job : DeliveryJob) (bundle : DeliveryBundle) (db : Db)
    (a : DeliveryAuthority) : Type 0 where
  pub source : AuditRecord
  pub audit : job.approval_audit_id ≡ some a.audit_id
  pub found : find a.audit_id db.audits ≡ some source
  pub approves : Approves item bundle source
  pub same_digest : a.bundle_sha256 ≡ bundle.sha256
  pub same_version : a.work_version ≡ item.version

is_count_facts : (n : ℕ) (o : Option ℕ) → is_count n o ≡ true → o ≡ some n
is_count_facts n o h = ground arith

is_key_facts : (n : ℕ) (o : Option ℕ) → is_key n o ≡ true → o ≡ some n
is_key_facts n o h = ground arith

is_act_on_facts :
    (item : WorkItem) (s : AuditRecord)
    → is_act_on item s ≡ true
    → (is_approval s.action ≡ true)
      × (is_human s.transport ≡ true)
      × (s.organization_id ≡ item.organization_id)
      × (s.repository ≡ item.repository)
      × (s.work_item_id ≡ item.id)
      × (s.correlation_id ≡ item.correlation_id)
      × (may_approve s.effective_role ≡ true)
unfolding is_act_on
is_act_on_facts item s h = ground arith

decides_delivery_facts :
    (d : Fields) → decides_delivery d ≡ true → is_text "approve" (get_field "decision" d) ≡ true
unfolding decides_delivery
decides_delivery_facts d h = ground arith

decides_bundle_facts :
    (is_digest : Key → Bool) (item : WorkItem) (b : DeliveryBundle) (d : Fields)
    → decides_bundle is_digest item b d ≡ true
    → (as_count (get_field "work_version_after" d) ≡ some item.version)
      × (as_key (get_field "delivery_bundle_sha256" d) ≡ some b.sha256)
unfolding decides_bundle
decides_bundle_facts is_digest item b d h =
    let version = as_count (get_field "work_version_after" d) in
    let digest = as_key (get_field "delivery_bundle_sha256" d) in
    let c =
      and-true (is_count item.version version && is_digest b.sha256) (is_key b.sha256 digest) h in
    let c' = and-true (is_count item.version version) (is_digest b.sha256) c.0 in
    (is_count_facts item.version version c'.0, is_key_facts b.sha256 digest c.1)

is_approval_of-Approves :
    (is_digest : Key → Bool) (item : WorkItem) (bundle : DeliveryBundle) (s : AuditRecord)
    → is_approval_of is_digest item bundle s ≡ true
    → Approves item bundle s
unfolding is_approval_of
is_approval_of-Approves is_digest item bundle s h =
    let c =
      and-true (is_act_on item s && decides_delivery s.details)
        (decides_bundle is_digest item bundle s.details) h in
    let c' = and-true (is_act_on item s) (decides_delivery s.details) c.0 in
    let f = is_act_on_facts item s c'.0 in
    let g = decides_bundle_facts is_digest item bundle s.details c.1 in
    record {
      an_approval = f.0;
      by_human = f.1;
      organization = f.2;
      repository = f.3;
      work = f.4;
      correlation = f.5;
      permitted = f.6;
      decided = decides_delivery_facts s.details c'.1;
      version = g.0;
      digest = g.1;
    }

module _ (is_digest : Key → Bool) (item : WorkItem) (job : DeliveryJob) (bundle : DeliveryBundle)
    (db : Db) where
  -- A delivery is authorized only by the approval audit record that the job names: one written by
  -- a person with an approving role, for this work item in its organization and repository, which
  -- approves the work's present version and the digest of the bundle that is delivered.
  pub authority_ok :
      {a : DeliveryAuthority}
      → delivery_authority is_digest item job (some bundle) db ≡ ok a
      → Authorizes item job bundle db a
  unfolding delivery_authority authority_of is_approval_of
  authority_ok {a} h = elim (Option-cases job.approval_audit_id) [
    | inl missing ↦ absurd (ground arith)
    | inr (n, named) ↦ elim (Option-cases (find n db.audits)) [
      | inl missing ↦ absurd (ground arith)
      | inr (s, found) ↦ elim (Bool-cases (is_approval_of is_digest item bundle s)) [
        | inl good ↦
            let id : s.id ≡ n = find-key n s db.audits found in
            let made : a ≡ record {
              audit_id = s.id;
              bundle_sha256 = bundle.sha256;
              work_version = item.version;
            } =
              ground arith in
            rw made (record {
              source = s;
              audit = named ∙ ap some (sym id);
              found = subst (λ k. find k db.audits ≡ some s) (sym id) found;
              approves = is_approval_of-Approves is_digest item bundle s good;
              same_digest = refl;
              same_version = refl;
            })
        | inr bad ↦ absurd (ground arith)
      ]
    ]
  ]
