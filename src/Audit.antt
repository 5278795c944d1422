-- ===== src/Audit.antt =====
-- The append-only audit table (`AuditRecord`, apps/api/app/models.py), and which records count as
-- an approval of a pull request.
use dev_agent.Base.{ℕ, suc, Key, Time, Bool, true, false, Option, some, ◌∷◌, length}
use dev_agent.Models.{
  AuditRecord, Action, approval_decided, lease_reconciled, Role, approver, administrator, Transport,
  web, slack, Target, row_number, row_id,
}
use dev_agent.Base.{nat_beq}
use dev_agent.Tx.{Tx, ok}

-- `session.add(AuditRecord(…))`: the database gives the next number, and the column's default the
-- time.
unfoldable pub add_audit : (ℕ → Time → AuditRecord) → Tx AuditRecord
add_audit draft e db =
    let row = draft (suc (length db.audits)) e.now in
    ok (row, record db { audits = row ∷ db.audits })

abbrev pub is_approval : Action → Bool
is_approval approval_decided = true
is_approval _ = false

abbrev pub is_reconciliation : Action → Bool
is_reconciliation lease_reconciled = true
is_reconciliation _ = false

abbrev pub targets : Key → Target → Bool
targets i (row_id j) = nat_beq j i
targets i (row_number n) = false

-- `transport in {"web", "slack"}`
abbrev pub is_human : Transport → Bool
is_human web = true
is_human slack = true
is_human _ = false

-- `required_role == Role.APPROVER`
abbrev pub is_approver : Option Role → Bool
is_approver (some approver) = true
is_approver _ = false

-- `effective_role in {Role.APPROVER, Role.ADMINISTRATOR}`
abbrev pub may_approve : Option Role → Bool
may_approve (some approver) = true
may_approve (some administrator) = true
may_approve _ = false
