-- ===== src/Delivery/Stages.antt =====
-- The stages of `_deliver_work` of apps/api/app/delivery.py, and how one may fail.
use dev_agent.Base.{String, Bool, true, false}
use dev_agent.Tx.{
  Error, http, invalid, integrity, key_error, delivery_stopped, delivery_error, protected,
  file_error,
}

pub data Stage : Type 0 where
  authorization configuration bundle token metadata existing_pull_request : Stage
  existing_branch workspace clone checkout apply commit push pull_request : Stage
  finalize recovery : Stage

-- The stages whose call writes to GitHub: an installation token, the push, and the new pull request.
abbrev pub is_write : Stage → Bool
is_write token = true
is_write push = true
is_write pull_request = true
is_write _ = false

abbrev pub stage_text : Stage → String
stage_text authorization = "authorization"
stage_text configuration = "configuration"
stage_text bundle = "bundle"
stage_text token = "token"
stage_text metadata = "metadata"
stage_text existing_pull_request = "existing_pull_request"
stage_text existing_branch = "existing_branch"
stage_text workspace = "workspace"
stage_text clone = "clone"
stage_text checkout = "checkout"
stage_text apply = "apply"
stage_text commit = "commit"
stage_text push = "push"
stage_text pull_request = "pull_request"
stage_text finalize = "finalize"
stage_text recovery = "recovery"

-- The classes of exceptions that `delivery_error_code` and the handlers tell apart. A failure of the
-- database is none of them.
pub data Failure : Type 0 where
  stopped : Failure
  coded : String → Failure
  command timed_out upstream filesystem internal : Failure

-- `delivery_error_code`; a stopped delivery does not come here.
abbrev pub delivery_error_code : Failure → String
delivery_error_code stopped = "internal_error"
delivery_error_code (coded c) = c
delivery_error_code command = "command_failed"
delivery_error_code timed_out = "timeout"
delivery_error_code upstream = "upstream_error"
delivery_error_code filesystem = "filesystem_error"
delivery_error_code internal = "internal_error"

-- The class of an exception of a transaction.
abbrev pub of_error : Error → Failure
of_error (http n s) = internal
of_error (invalid s) = internal
of_error integrity = internal
of_error key_error = internal
of_error delivery_stopped = stopped
of_error (delivery_error c) = coded c
of_error (protected s) = internal
of_error (file_error s) = internal
