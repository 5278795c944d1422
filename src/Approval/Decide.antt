-- ===== src/Approval/Decide.antt =====
-- The handlers of an approval: `decide_approval`, and the approval branch of `slack_command`
-- (apps/api/app/main.py).
use Prim.Native.String.{◌++◌}
use dev_agent.Base.{
  ℕ, suc, ◌+◌, ◌*◌, Key, Bool, false, Option, none, some, ◌∷◌, ◌&&◌, String, length, nat_beq, leb,
  if◌then◌else◌,
}
use dev_agent.Base.Table.{save}
use dev_agent.Models.{
  WorkItem, WorkStatus, Approval, ApprovalKind, Decision, Transport, Fields, approver, end, field,
  num, str, obj, get_field, pull_request, budget, console, approve, reject, web, slack,
  awaiting_approval, budget_exhausted, implementing, committing, ident, status_beq, work_keyed,
}
use dev_agent.Authorization.{Actor, RoleDecision, authorized_work_with_decision}
use dev_agent.Approval.{
  Publisher, ApprovalCreate, ApprovalState, capture, validate_delivery_ready, queue_delivery,
  record_approval_audit, kind_text, decision_text,
}
use dev_agent.Quarantine.{ensure_worker_not_quarantined}
use dev_agent.Service.{EventCreate, new_event, emit_event, transition_work_item}
use dev_agent.Tx.{Tx, ok, http, pure, require, or_raise, modify, ◌>>=◌, ◌>>◌}

-- What a decision leads to: the item (with its extended budget), the next status if there is one,
-- and whether the control plane delivers.
pub record Plan : Type 0 where
  pub item : WorkItem
  pub target : Option WorkStatus
  pub should_deliver : Bool

abbrev plan : WorkItem → Option WorkStatus → Bool → Plan
plan item target deliver = record { item = item; target = target; should_deliver = deliver }

-- `payload.get("minutes", 60)`, if it is a count of 15 to 1440 minutes.
unfoldable pub extension : Fields → Option ℕ
extension payload = elim (get_field "minutes" payload) [
  | none ↦ some 60
  | some v ↦ elim v [ num n ↦ if leb 15 n && leb n (24 * 60) then some n else none | _ ↦ none ]
]

unfoldable pub plan_pull_request : Publisher → WorkItem → Decision → Tx Plan
plan_pull_request p item decision = do
  require (status_beq item.status awaiting_approval) (http 409 "work is not awaiting PR approval")
  elim decision [
    | approve ↦ (do
      deliver ← validate_delivery_ready p item
      pure (plan item (some committing) deliver))
    | reject ↦ pure (plan item (some implementing) false)
  ]

abbrev matches_version : ℕ → Option ℕ → Bool
matches_version n none = false
matches_version n (some m) = nat_beq m n

unfoldable pub plan_budget : WorkItem → ApprovalCreate → Tx Plan
unfolding extension
plan_budget item payload = do
  or_raise payload.expected_version (http 422 "expected_version is required for budget decisions")
  require (matches_version item.version payload.expected_version) (http 409 "version mismatch")
  require (status_beq item.status budget_exhausted) (http 409 "work has not exhausted its budget")
  elim payload.decision [
    | approve ↦ (do
      minutes ← or_raise (extension payload.payload) (http 422 "invalid budget extension")
      pure (
          plan (record item { budget_minutes = item.budget_minutes + minutes }) (some implementing)
            false))
    | reject ↦ pure (plan item none false)
  ]

unfoldable pub plan_decision : Publisher → WorkItem → ApprovalCreate → Tx Plan
unfolding plan_pull_request plan_budget
plan_decision p item payload = elim payload.kind [
  | pull_request ↦ plan_pull_request p item payload.decision
  | budget ↦ plan_budget item payload
  | console ↦ pure (plan item none false)
]

-- `session.add(Approval(…))`
unfoldable pub add_approval : WorkItem → ApprovalKind → Decision → Key → Fields → Tx Approval
add_approval item kind decision actor payload e db =
    let row : Approval = record {
      id = suc (length db.approvals);
      work_item_id = item.id;
      kind = kind;
      decision = decision;
      actor = actor;
      payload = payload;
      created_at = e.now;
    } in
    ok (row, record db { approvals = row ∷ db.approvals })

abbrev version_field : Option ℕ → Fields → Fields
version_field none d = d
version_field (some n) d = field "expected_version" (num n) d

-- `payload.model_dump(exclude_none=True)` and the event around it.
unfoldable pub decision_event : Actor → ApprovalCreate → EventCreate
decision_event actor payload = record {
  event_type = "approval.decided";
  source = ident actor.subject;
  level = "info";
  message = kind_text payload.kind ++ ": " ++ decision_text payload.decision;
  payload = field "kind" (str (kind_text payload.kind)) (
      field "decision" (str (decision_text payload.decision))
        (version_field payload.expected_version (field "payload" (obj payload.payload) end)));
}

-- `if target is not None: await transition_work_item(…)`
unfoldable pub move_to : Actor → WorkItem → String → Option WorkStatus → Tx WorkItem
move_to actor item message none = pure item
move_to actor item message (some target) = transition_work_item item (record {
  target = target;
  expected_version = item.version;
  actor = ident actor.subject;
  worker_id = none;
  message = message;
  payload = end;
})

-- The audit record, and the delivery that it authorizes.
unfoldable pub conclude :
    WorkItem → Actor → RoleDecision → Approval → ApprovalState → Transport → Bool → Tx WorkItem
conclude item actor decision approval before transport deliver = do
  audit ← record_approval_audit item actor decision approval before transport deliver
  if deliver then queue_delivery item audit.id else pure tt
  pure item

module _ (lower : Key → Key) (p : Publisher) where
  unfoldable pub decide_approval : Actor → Key → ApprovalCreate → Tx WorkItem
  unfolding plan_decision add_approval decision_event move_to conclude
  decide_approval actor work_item_id payload = do
    (item, decision) ← authorized_work_with_decision lower actor work_item_id approver
    ensure_worker_not_quarantined item
    decided ← plan_decision p item payload
    modify (λ db. record db { works = save decided.item db.works })
    approval ← add_approval item payload.kind payload.decision actor.subject payload.payload
    event ← new_event (decision_event actor payload)
    emit_event work_item_id event
    item' ← move_to actor decided.item "" decided.target
    conclude item' actor decision approval (capture item) web decided.should_deliver

  -- `/kelpie approve <work-id>`; `principal` is `identity.principal_id`.
  unfoldable pub slack_approve : Actor → (principal : Key) → Key → Tx WorkItem
  unfolding add_approval move_to conclude
  slack_approve actor principal work_item_id = do
    (item, decision) ← authorized_work_with_decision lower actor work_item_id approver
    ensure_worker_not_quarantined item
    require (status_beq item.status awaiting_approval) (http 409 "work is not awaiting approval")
    deliver ← validate_delivery_ready p item
    approval ← add_approval item pull_request approve principal end
    item' ←
        move_to (record actor { subject = principal }) item
          "Commit and pull request approved from Slack" (some committing)
    conclude item' actor decision approval (capture item) slack deliver
