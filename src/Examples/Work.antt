-- ===== src/Examples/Work.antt =====
-- The theorems on statuses and their changes, at the data of Examples.
use dev_agent.Base.{none, true, false, refl, ◌≡◌, ◌≢◌, ◌⊎◌}
use dev_agent.Base.Table.{find}
use dev_agent.Models.{
  WorkStatus, queued, verifying, awaiting_approval, committing, cancelled, pr_created, end, ident,
}
use dev_agent.Examples.{env, db, waiting, value_or}
use dev_agent.Service.{Change, transition_work_item, moved}
use dev_agent.Service.Transition.{Moved, moved_db, transition_ok, transition_total}
use dev_agent.StateMachine.{ensure_transition}
use dev_agent.StateMachine.Paths.{
  Walk, here, step, crosses_approval, is_final, delivery_needs_approval, stop_or_final,
  is_delivered,
}
use dev_agent.WorkerTransitions.Edges.{
  worker_edge, awaits_person, worker_edge-ensure_transition, worker_edge_limits,
}
use dev_agent.Tx.{after, ok}

abbrev change : Change
change = record {
  target = cancelled;
  expected_version = 1;
  actor = ident 3;
  worker_id = none;
  message = "stopped";
  payload = end;
}

transition_ok_example :
    Moved waiting change env db
      (value_or waiting (transition_work_item waiting change env db))
      (after db (transition_work_item waiting change env db))
unfolding transition_work_item find ensure_transition dev_agent.Service.apply_transition
    dev_agent.Service.transition_event dev_agent.Service.emit_event dev_agent.Base.Table.save
transition_ok_example = transition_ok waiting change env db {old = waiting} refl refl

transition_total_example :
    transition_work_item waiting change env db
    ≡ ok (moved waiting cancelled 100, moved_db waiting change 100 db)
unfolding ensure_transition find dev_agent.Service.fits dev_agent.Service.transition_event
transition_total_example =
    transition_total waiting change env db {old = waiting} refl refl refl refl

abbrev delivery : Walk awaiting_approval pr_created
unfolding ensure_transition
delivery = step committing (step awaiting_approval here refl) refl

delivery_needs_approval_example : crosses_approval delivery ≡ true
delivery_needs_approval_example = delivery_needs_approval delivery refl refl

stop_or_final_example :
    ((is_final queued ≡ false) × Walk queued cancelled)
    ⊎ ((is_final queued ≡ true) × ((t : WorkStatus) → ensure_transition queued t ≡ false))
stop_or_final_example = stop_or_final queued

worker_edge-ensure_transition_example : ensure_transition verifying awaiting_approval ≡ true
unfolding worker_edge
worker_edge-ensure_transition_example =
    worker_edge-ensure_transition verifying awaiting_approval refl

worker_edge_limits_example :
    (cancelled ≢ queued)
    × (cancelled ≢ committing)
    × (awaits_person awaiting_approval ≡ true → cancelled ≡ cancelled)
    × (is_delivered cancelled ≡ true → is_delivered awaiting_approval ≡ true)
unfolding worker_edge
worker_edge_limits_example = worker_edge_limits awaiting_approval cancelled refl
