-- ===== src/Examples/Policies.antt =====
-- The theorems on policies and on redacted telemetry, at small policies and texts.
use dev_agent.Base.{Key, none, some, [], ◌∷◌, false, refl, ◌≡◌, All, select, nat_beq, arith, ◌+◌}
use dev_agent.Base.Table.{find}
use dev_agent.Models.{Db, Organization, administrator, viewer, approver}
use dev_agent.Authorization.{find_organization, actor_from_identity}
use dev_agent.Examples.{env, db}
use dev_agent.Provision.{apply_policy}
use dev_agent.Provision.Document.{OrganizationPolicy}
use dev_agent.Provision.Apply.{apply_policy-Isolated}
use dev_agent.Provision.Isolation.{others}
use dev_agent.Provision.SignIn.{member_actor, apply_policy-sign_in}
use dev_agent.Redaction.{Text, codes}
use dev_agent.Redaction.Telemetry.{
  Value, plain, text, dict, empty, entry, redact, redact_worker_telemetry, mentions,
}
use dev_agent.Redaction.Agreement.{redact_worker_telemetry-redact, redact_worker_telemetry-mentions}
use dev_agent.Tx.{ok, after}

-- A new organization 6 with an administrator and a repository of its own.
abbrev policy : OrganizationPolicy
policy = record {
  organization_id = 6;
  issuer = 90;
  claim = 91;
  members =
      (record { subject = 81; role = administrator })
      ∷ (record { subject = 82; role = viewer })
      ∷ [];
  repositories =
      (record {
        name = 8;
        github_installation_id = none;
        grants = (record { subject = 82; role = approver }) ∷ [];
      })
      ∷ [];
  slack_identities = (record { team_id = 1; user_id = 2; subject = 81 }) ∷ [];
}

abbrev ids : Key → Key → Key
ids issuer subject = 1000 + subject

abbrev applied : Db
applied = after db (apply_policy ids policy env db)

apply_policy-Isolated_example :
    (others 5 applied.iam ≡ others 5 db.iam)
    × (select (λ g. nat_beq g.repository 7) applied.iam.grants
        ≡ select (λ g. nat_beq g.repository 7) db.iam.grants)
    × (record applied { iam = db.iam } ≡ db)
unfolding apply_policy find dev_agent.Authorization.find_principal dev_agent.Base.Table.keys_where
    dev_agent.Authorization.find_slack
apply_policy-Isolated_example =
    apply_policy-Isolated ids policy env db {db' = applied} refl 5 7 refl refl refl

nobody : (o : Organization) → find_organization 90 91 [] ≡ some o → o.id ≡ 6
unfolding find_organization
nobody o h = absurd (ground arith)

apply_policy-sign_in_example :
    All
      (λ m.
        (i : Key) × (actor_from_identity 90 m.subject 91 env applied
          ≡ ok (member_actor policy m i, applied)))
      policy.members
unfolding apply_policy find dev_agent.Authorization.find_principal dev_agent.Base.Table.keys_where
    dev_agent.Authorization.find_slack
apply_policy-sign_in_example = apply_policy-sign_in ids policy env db {db' = applied} nobody refl

abbrev lease_text : Text
lease_text = codes "synthetic-lease"

abbrev message : Value
message = dict (
    entry (codes "api_key") (plain 1)
      (entry (codes "output") (text (codes "got synthetic-lease!")) empty))

redact_worker_telemetry-mentions_example :
    mentions lease_text (redact_worker_telemetry (λ t. t) (some lease_text) message) ≡ false
unfolding codes
redact_worker_telemetry-mentions_example =
    redact_worker_telemetry-mentions (λ t. t) lease_text refl refl message

redact_worker_telemetry-redact_example :
    (redact_worker_telemetry (λ t. t) (some lease_text) message
      ≡ redact (λ t. t) lease_text message)
    × (redact_worker_telemetry (λ t. t) none message ≡ redact (λ t. t) [] message)
redact_worker_telemetry-redact_example = redact_worker_telemetry-redact (λ t. t) lease_text message

-- The credential field and the lease in the output are gone.
redacted :
    redact (λ t. t) lease_text message
    ≡ dict (
        entry
          (codes "api_key")
          (text (codes "[REDACTED]"))
          (entry (codes "output") (text (codes "got [REDACTED]!")) empty))
unfolding redact codes dev_agent.Redaction.Telemetry.sensitive dev_agent.Redaction.drop_marks
redacted = refl
