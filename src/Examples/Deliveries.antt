-- ===== src/Examples/Deliveries.antt =====
-- The theorems on deliveries, at an approved work item of Examples.
use dev_agent.Base.{ℕ, none, some, [], ◌∷◌, true, false, refl, ◌≡◌, All}
use dev_agent.Models.{Db}
use dev_agent.Examples.{later}
use dev_agent.Examples.People.{is_digest, approved}
use dev_agent.Delivery.Stages.{push, pull_request, token}
use dev_agent.Delivery.Run.{Outside}
use dev_agent.Delivery.Guard.{PermittedWrite}
use dev_agent.Delivery.Publish.{deliver_work}
use dev_agent.Delivery.Outcome.{in_order, stages, deliver_work-Permitted, deliver_work-in_order}

-- Nothing interferes, every call answers, and neither a pull request nor its branch exists.
abbrev calm : Outside
calm = record {
  is_digest = is_digest;
  pull_request_number = λ u. some 3;
  spell = λ u. "url";
  env = λ m. later;
  meanwhile = λ m db. db;
  seen = λ m. approved;
  late = λ s. false;
  answer = λ s. none;
  snapshot = none;
  cleanup = none;
  found = none;
  branch = false;
  created = 55;
}

abbrev ran : Db
ran = (deliver_work calm 12 900 approved).1.db

deliver_work-Permitted_example :
    (a : ℕ) × All
      (λ w. PermittedWrite is_digest 12 a w)
      (deliver_work calm 12 900 approved).1.writes
deliver_work-Permitted_example = deliver_work-Permitted calm 12 900 approved

deliver_work-in_order_example :
    in_order false false (stages (deliver_work calm 12 900 approved).1.writes) ≡ true
deliver_work-in_order_example = deliver_work-in_order calm 12 900 approved

-- The three writes of that attempt.
three_writes :
    stages (deliver_work calm 12 900 approved).1.writes ≡ pull_request ∷ push ∷ token ∷ []
unfolding deliver_work dev_agent.Base.Table.find dev_agent.Approval.Decide.conclude
    dev_agent.Approval.record_approval_audit dev_agent.Audit.add_audit
    dev_agent.Approval.queue_delivery dev_agent.DeliveryAudit.delivery_authority
    dev_agent.Models.get_field dev_agent.DeliveryAudit.record_delivery_audit
    dev_agent.Delivery.Run.◌>>=◌ dev_agent.Base.Table.save dev_agent.Service.transition_work_item
    dev_agent.StateMachine.ensure_transition dev_agent.Service.apply_transition
    dev_agent.Service.transition_event dev_agent.Service.emit_event
three_writes = refl
