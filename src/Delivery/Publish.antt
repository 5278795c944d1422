-- ===== src/Delivery/Publish.antt =====
-- `_deliver_work` of apps/api/app/delivery.py: the publication of an approved work item.
use dev_agent.Base.{
  ℕ, ltb, Key, Bool, Option, none, some, String, [], if◌then◌else◌, true, false, is_some, not, ◌&&◌,
}
use dev_agent.Models.{Db}
use dev_agent.Tx.{Error, ok, err, Result, after, delivery_stopped}
use dev_agent.Delivery.{
  Report, Started, start_delivery, finalize_delivery, audit_stopped_delivery, lock_delivery,
  fail_delivery, is_running,
}
use dev_agent.Delivery.Stages.{
  Stage, Failure, stopped, internal, delivery_error_code, configuration, bundle, token, metadata,
  existing_pull_request, existing_branch, workspace, clone, checkout, apply, commit, push,
  pull_request, finalize, authorization,
}
use dev_agent.Delivery.Run.{
  Run, Outside, Step, went, raised, Do, during, failing, stopping, ◌>>=◌, ◌>>◌, return, enter, call,
  commits, guarded, answered, with_cleanup,
}

-- A call at a stage of its own.
unfoldable pub stage_call : Outside → Stage → Do (Unit {0})
unfolding call
stage_call o s = enter s >> call o

unfoldable pub stage_write : Outside → Key → ℕ → Stage → Do (Unit {0})
unfolding guarded call
stage_write o i a s = enter s >> guarded o i a (call o)

-- `if not work.github_installation_id`
abbrev pub check_installation : Option ℕ → Do (Unit {0})
check_installation none r = raised internal r
check_installation (some n) r = if ltb 0 n then went tt r else raised internal r

abbrev pub set_url : Option Key → Do (Unit {0})
set_url u r = went tt (record r { url = u })

abbrev pub set_publication : String → Do (Unit {0})
set_publication p r = went tt (record r { publication = p })

-- `pull_request_url is None and await github.branch_exists(...)`, at its stage
unfoldable pub branch_exists : Outside → Option Key → Do Bool
unfolding stage_call
branch_exists o (some u) = enter existing_branch >> return false
branch_exists o none = stage_call o existing_branch >> return o.branch

abbrev pub publication_text : Option Key → Bool → String
publication_text (some u) b = "existing_pull_request"
publication_text none true = "existing_branch"
publication_text none false = "new_branch"

-- The body of the inner `try`.
unfoldable pub push_branch : Outside → Key → ℕ → Do (Unit {0})
unfolding stage_call stage_write
push_branch o i a = do
  answered o.snapshot
  stage_call o clone
  stage_call o checkout
  stage_call o apply
  stage_call o commit
  stage_write o i a push

-- The new branch, built in a workspace of its own and pushed.
unfoldable pub publish_branch : Outside → Key → ℕ → Do (Unit {0})
unfolding stage_call push_branch with_cleanup
publish_branch o i a = do stage_call o workspace; with_cleanup o (push_branch o i a)

abbrev pub branch_if_new : Outside → Key → ℕ → Bool → Do (Unit {0})
branch_if_new o i a true = publish_branch o i a
branch_if_new o i a false = return tt

-- The pull request: the one that was found, or a new one.
unfoldable pub open_pull_request : Outside → Key → ℕ → Option Key → Do Key
unfolding stage_write
open_pull_request o i a (some u) = return u
open_pull_request o i a none = do
  stage_write o i a pull_request
  set_url (some o.created)
  return o.created

abbrev pr_number : Outside → Option Key → Option ℕ
pr_number o none = none
pr_number o (some u) = o.pull_request_number u

abbrev pub report : Outside → Key → Started → Run → Report
report o request_id s r = record {
  request_id = request_id;
  attempt = s.attempt;
  authority = some s.authority;
  stage = r.stage;
  publication = r.publication;
  pull_request_number = pr_number o r.url;
}

unfoldable pub finish : Outside → Key → (request_id : Key) → Started → (url : Key) → Do (Unit {0})
unfolding commits finalize_delivery
finish o i request_id s url r =
    commits o (during finalize)
      (finalize_delivery o.is_digest (o.seen (during finalize)) i o.spell s.authority url
        (report o request_id s r))
      r

-- The calls before anything is published.
unfoldable pub prepare : Outside → Key → Started → Do (Unit {0})
unfolding stage_call stage_write
prepare o i s = do
  check_installation s.work.github_installation_id
  stage_call o bundle
  stage_write o i s.authority.audit_id token
  stage_call o metadata
  stage_call o existing_pull_request

-- What follows the question for the branch.
unfoldable pub publish_after :
    Outside → Key → (request_id : Key) → Started → (branch : Bool) → Do (Unit {0})
unfolding publish_branch open_pull_request finish
publish_after o i request_id s branch = do
  set_publication (publication_text o.found branch)
  branch_if_new o i s.authority.audit_id (not (is_some o.found) && not branch)
  url ← open_pull_request o i s.authority.audit_id o.found
  enter finalize
  finish o i request_id s url

-- The body of the `try`.
unfoldable pub publish : Outside → Key → (request_id : Key) → Started → Do (Unit {0})
unfolding prepare branch_exists publish_after
publish o i request_id s = do
  prepare o i s
  set_url o.found
  branch ← branch_exists o o.found
  publish_after o i request_id s branch

-- How an attempt ends. `lost` is a failure of the handler itself.
pub data Ending : Type 0 where
  unstarted unauthorized published stopped_late broke lost : Ending

-- The audit of a stop, in a transaction of its own.
unfoldable pub audit_stop : Outside → Key → Report → Run → Ending × Run
unfolding audit_stopped_delivery
audit_stop o i told r =
    let db = o.meanwhile stopping r.db in
    (stopped_late, record r { db = after db (audit_stopped_delivery i told (o.env stopping) db) })

-- What the handler's transaction came to.
abbrev pub failed_or_stopped :
    Outside → Key → Report → Run → Db → Result ((Unit {0}) × Db) → Ending × Run
failed_or_stopped o i told r db (ok (u, db')) = (broke, record r { db = db' })
failed_or_stopped o i told r db (err x) = elim x [
  | delivery_stopped ↦ audit_stop o i told (record r { db = db })
  | other ↦ (lost, record r { db = db })
]

unfoldable pub fail_run : Outside → Key → Report → (code : String) → Run → Ending × Run
unfolding lock_delivery fail_delivery audit_stop
fail_run o i told code r =
    let db = o.meanwhile failing r.db in
    failed_or_stopped o i told r db
      (elim (lock_delivery (o.seen failing) i is_running (o.env failing) db) [
        | ok ((work, job), db') ↦ fail_delivery work job told code (o.env failing) db'
        | err x ↦ err x
      ])

-- The handlers of the `try`.
unfoldable pub handle : Outside → Key → (request_id : Key) → Started → Failure → Run → Ending × Run
unfolding fail_run audit_stop
handle o i request_id s stopped r = audit_stop o i (report o request_id s r) r
handle o i request_id s x r = fail_run o i (report o request_id s r) (delivery_error_code x) r

abbrev pub concluded : Outside → Key → Key → Started → Step (Unit {0}) → Ending × Run
concluded o i request_id s (went u r) = (published, r)
concluded o i request_id s (raised x r) = handle o i request_id s x r

abbrev pub first_run : Db → Run
first_run db = record {
  db = db;
  held = none;
  stage = configuration;
  publication = "not_started";
  url = none;
  writes = [];
}

abbrev pub not_started : Error → Ending
not_started delivery_stopped = unstarted
not_started other = lost

-- What follows the first transaction.
abbrev pub carried_on : Outside → Key → Key → Db → Result ((Option Started) × Db) → Ending × Run
carried_on o i request_id db (err x) = (not_started x, first_run db)
carried_on o i request_id db (ok (none, db')) = (unauthorized, first_run db')
carried_on o i request_id db (ok (some s, db')) =
    concluded o i request_id s (publish o i request_id s (first_run db'))

unfoldable pub deliver_work : Outside → Key → (request_id : Key) → Db → Ending × Run
unfolding start_delivery publish handle
deliver_work o i request_id db =
    let db' = o.meanwhile (during authorization) db in
    carried_on o i request_id db' (
      start_delivery o.is_digest (o.seen (during authorization)) i request_id
        (o.env (during authorization)) db')
