-- ===== src/Examples/Hosts.antt =====
-- The theorems on workers, leases and credentials, at the data of Examples.
use dev_agent.Base.{
  Key, none, some, [], ◌∷◌, true, false, refl, ◌≡◌, arith, subst, ◌≤◌, Bool, nat_beq,
}
use dev_agent.Base.Table.{find}
use dev_agent.Base.Table.Rows.{first}
use dev_agent.Models.{Db, worker_keyed, lease_keyed, WorkerHost, WorkItem, queued, work_keyed}
use dev_agent.Examples.{env, later, host, lease, db, work, waiting, value_or}
use dev_agent.Tx.{after, ok, Result, for_each}
use dev_agent.Service.{emit_event}
use dev_agent.Accounts.{reserved}
use dev_agent.Accounts.Keep.{IsAccounted, IsBalanced, claim-IsAccounted}
use dev_agent.Accounts.Settle.{release-IsAccounted}
use dev_agent.Claim.{
  claim_next_work, ClaimRequest, Draw, Claimed, claim_item, grant_lease, is_claimable, oldest,
}
use dev_agent.Claim.Grant.{Outcome, claim-Outcome, claims_oldest}
use dev_agent.Leases.{release_run, matches_token, validate_lease}
use dev_agent.Leases.Validate.{Validated, validate_ok}
use dev_agent.Leases.Release.{Released, release_ok}
use dev_agent.Leases.Reconcile.{ReconciliationRequest, reconcile_terminal_lease}
use dev_agent.Leases.Settled.{Reconciles, reconcile_ok}
use dev_agent.Leases.Repeat.{reconcile_twice}
use dev_agent.Credentials.{authenticate_worker, revoke_credential}
use dev_agent.Credentials.Access.{Authenticated, authenticate_ok, revoke-authenticate}
use dev_agent.Quarantine.{QuarantineResult, quarantine_worker}
use dev_agent.Quarantine.Shut.{ShutOut, quarantine-ShutOut}
use dev_agent.Accounts.Reconciled.{reconcile-IsAccounted}
use dev_agent.Quarantine.Works.{quarantine_stops}
use dev_agent.Service.{moved}
use dev_agent.Leases.{is_terminal}
use dev_agent.Models.{failed}
use dev_agent.Examples.{in_review}
use dev_agent.Credentials.{Minted, rotate_credential}
use dev_agent.Credentials.Rotation.{Rotated, rotate-Rotated}
use dev_agent.Quarantine.Fences.{Fenced, quarantine-Fenced, quarantine_again}

only_host : (i : Key) (w : WorkerHost) → find i db.workers ≡ some w → host ≡ w
unfolding find
only_host i w f = ground arith

host-IsBalanced : IsBalanced host db.leases
unfolding reserved
host-IsBalanced = record { cpu = refl; memory_mb = refl }

db-IsAccounted : IsAccounted db
db-IsAccounted = record {
  at = λ i w f. subst (λ v. IsBalanced v db.leases) (only_host i w f) host-IsBalanced;
}

abbrev request : ClaimRequest
request = record { cpu = 2; memory_mb = 100; disk_gb = 1 }

abbrev draw : Draw
draw = record { token = 200; lease_id = 22 }

abbrev claim : Result (Claimed × Db)
claim = claim_next_work host request 60 draw (λ k. false) env db

claim-Outcome_example :
    Outcome host request 60 draw env db (λ k. false) (value_or none claim) (after db claim)
unfolding claim_next_work claim_item dev_agent.Service.transition_work_item
    dev_agent.StateMachine.ensure_transition dev_agent.Service.apply_transition
    dev_agent.Service.transition_event emit_event find dev_agent.Base.Table.save grant_lease
claim-Outcome_example = claim-Outcome host request 60 draw env db (λ k. false) refl

claim-IsAccounted_example : IsAccounted (after db claim)
unfolding claim_next_work find claim_item dev_agent.Service.transition_work_item
    dev_agent.StateMachine.ensure_transition dev_agent.Service.apply_transition
    dev_agent.Service.transition_event emit_event dev_agent.Base.Table.save grant_lease
claim-IsAccounted_example =
    claim-IsAccounted host request 60 draw env db (λ k. false) db-IsAccounted refl refl

-- A newer item waits too, and was stored last.
abbrev newcomer : WorkItem
newcomer = work 14 queued 1 none

abbrev two_waiting : Db
two_waiting = record db { works = newcomer ∷ waiting ∷ [] }

-- Another transaction holds another item.
abbrev held_by_another : Key → Bool
held_by_another k = nat_beq k 15

claims_oldest_example : (10 ≤ 14) × (held_by_another 10 ≡ false)
unfolding claim_next_work claim_item dev_agent.Service.transition_work_item
    dev_agent.StateMachine.ensure_transition dev_agent.Service.apply_transition
    dev_agent.Service.transition_event emit_event find dev_agent.Base.Table.save grant_lease
    is_claimable oldest dev_agent.Service.moved
claims_oldest_example =
    claims_oldest host request 60 draw env two_waiting held_by_another 14 {x = newcomer} refl refl
      refl

validate_ok_example :
    Validated db 11 100 60 env db
      (record lease { expires_at = 160 })
      (record db { leases = record lease { expires_at = 160 } ∷ [] })
unfolding validate_lease first matches_token find dev_agent.Base.Table.save
validate_ok_example = validate_ok db 11 60 env db 100 refl

release_ok_example :
    Released db 11 100 60 env db (after db (release_run db 11 (some 100) 60 env db))
unfolding release_run first matches_token find emit_event
release_ok_example = release_ok db 11 100 60 env db refl

release-IsAccounted_example : IsAccounted (after db (release_run db 11 (some 100) 60 env db))
unfolding release_run first matches_token find emit_event
release-IsAccounted_example = release-IsAccounted db 11 100 60 env db db-IsAccounted (refl, tt) refl

abbrev reconciliation : ReconciliationRequest
reconciliation = record { work_item_id = 11; expected_version = 6 }

abbrev reconciled : Db
reconciled = after db (reconcile_terminal_lease host 21 reconciliation env db)

reconcile_ok_example : Reconciles host 21 reconciliation env db reconciled
unfolding reconcile_terminal_lease first find dev_agent.Audit.add_audit emit_event
reconcile_ok_example = reconcile_ok host 21 reconciliation env db refl

reconcile_twice_example :
    reconcile_terminal_lease host 21 reconciliation later reconciled ≡ ok (tt, reconciled)
unfolding reconcile_terminal_lease first find dev_agent.Audit.add_audit emit_event
reconcile_twice_example = reconcile_twice host host 21 reconciliation env later db refl refl refl

authenticate_ok_example :
    Authenticated 31 40 env db host (after db (authenticate_worker (some 31) 40 env db))
unfolding authenticate_worker find
authenticate_ok_example = authenticate_ok 31 40 env db refl

revoke-authenticate_example :
    authenticate_worker (some 31) 40 later (after db (revoke_credential 31 "ops" "lost" env db))
    ≡ ok (none, after db (revoke_credential 31 "ops" "lost" env db))
unfolding revoke_credential find
revoke-authenticate_example = revoke-authenticate 31 "ops" "lost" env db 40 later refl

abbrev isolated : Result (QuarantineResult × Db)
isolated = quarantine_worker 1 "ops" "lost" env db

quarantine-Fenced_example : Fenced 1 env (after db isolated)
unfolding quarantine_worker dev_agent.Credentials.validate_audit dev_agent.Credentials.lock_worker
    find for_each dev_agent.Base.Table.order_keys dev_agent.Base.Table.keys_where
    dev_agent.Quarantine.live_credential dev_agent.Quarantine.revoke_one
    dev_agent.Quarantine.held_lease dev_agent.Quarantine.fence_lease
    dev_agent.Quarantine.is_assigned dev_agent.Quarantine.quarantine_work
    dev_agent.Leases.is_terminal emit_event dev_agent.Service.transition_work_item
    dev_agent.StateMachine.ensure_transition dev_agent.Service.apply_transition
    dev_agent.Service.transition_event dev_agent.Base.Table.insert_key dev_agent.Base.Table.save
    dev_agent.Credentials.is_blank dev_agent.Credentials.record_event
    dev_agent.Quarantine.close_outlets
quarantine-Fenced_example =
    quarantine-Fenced 1 "ops" "lost" env db {db' = after db isolated} refl refl

quarantine_again_example :
    (again : QuarantineResult) × (again.already_quarantined ≡ true)
    × (quarantine_worker 1 "ops" "lost" later (after db isolated) ≡ ok (again, after db isolated))
unfolding quarantine_worker dev_agent.Credentials.validate_audit dev_agent.Credentials.lock_worker
    find for_each dev_agent.Base.Table.order_keys dev_agent.Base.Table.keys_where
    dev_agent.Quarantine.live_credential dev_agent.Quarantine.revoke_one
    dev_agent.Quarantine.held_lease dev_agent.Quarantine.fence_lease
    dev_agent.Quarantine.is_assigned dev_agent.Quarantine.quarantine_work
    dev_agent.Leases.is_terminal emit_event dev_agent.Service.transition_work_item
    dev_agent.StateMachine.ensure_transition dev_agent.Service.apply_transition
    dev_agent.Service.transition_event dev_agent.Base.Table.insert_key dev_agent.Base.Table.save
    dev_agent.Credentials.is_blank dev_agent.Credentials.record_event
    dev_agent.Quarantine.close_outlets
quarantine_again_example =
    quarantine_again 1 "ops" "lost" env db {db' = after db isolated} refl later

quarantine-ShutOut_example : ShutOut 1 (after db isolated)
unfolding quarantine_worker dev_agent.Credentials.validate_audit dev_agent.Credentials.lock_worker
    find for_each dev_agent.Base.Table.order_keys dev_agent.Base.Table.keys_where
    dev_agent.Quarantine.live_credential dev_agent.Quarantine.revoke_one
    dev_agent.Quarantine.held_lease dev_agent.Quarantine.fence_lease
    dev_agent.Quarantine.is_assigned dev_agent.Quarantine.quarantine_work
    dev_agent.Leases.is_terminal emit_event dev_agent.Service.transition_work_item
    dev_agent.StateMachine.ensure_transition dev_agent.Service.apply_transition
    dev_agent.Service.transition_event dev_agent.Base.Table.insert_key dev_agent.Base.Table.save
    dev_agent.Credentials.is_blank dev_agent.Credentials.record_event
    dev_agent.Quarantine.close_outlets
quarantine-ShutOut_example = quarantine-ShutOut 1 "ops" "lost" env db {db' = after db isolated} refl

reconcile-IsAccounted_example : IsAccounted reconciled
unfolding reconcile_terminal_lease first find dev_agent.Audit.add_audit emit_event
reconcile-IsAccounted_example =
    reconcile-IsAccounted host 21 reconciliation env db db-IsAccounted (refl, tt) refl refl

quarantine_stops_example : is_terminal failed ≡ true
unfolding quarantine_worker dev_agent.Credentials.validate_audit dev_agent.Credentials.lock_worker
    find for_each dev_agent.Base.Table.order_keys dev_agent.Base.Table.keys_where
    dev_agent.Quarantine.live_credential dev_agent.Quarantine.revoke_one
    dev_agent.Quarantine.held_lease dev_agent.Quarantine.fence_lease
    dev_agent.Quarantine.is_assigned dev_agent.Quarantine.quarantine_work
    dev_agent.Leases.is_terminal emit_event dev_agent.Service.transition_work_item
    dev_agent.StateMachine.ensure_transition dev_agent.Service.apply_transition
    dev_agent.Service.transition_event dev_agent.Base.Table.insert_key dev_agent.Base.Table.save
    dev_agent.Credentials.is_blank dev_agent.Credentials.record_event
    dev_agent.Quarantine.close_outlets moved
quarantine_stops_example =
    quarantine_stops 1 "ops" "lost" env db {db' = after db isolated} refl refl 12
      (moved in_review failed 100) refl refl

abbrev minted : Minted
minted = record { identifier = 32; token = 41 }

rotate-Rotated_example :
    Rotated 31 minted env db
      (record { worker_id = 1; credential_id = 32; token = 41; expires_at = 3700 })
      (after db (rotate_credential 31 "ops" "due" 3600 60 minted env db))
unfolding rotate_credential find
rotate-Rotated_example = rotate-Rotated 31 "ops" "due" 3600 60 minted env db (omega arith) refl
