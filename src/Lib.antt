-- ===== src/Lib.antt =====
-- The control plane of dev-agent (apps/api/app): work items move through a state machine, workers claim
-- them, hold leases on their own resources, and people approve, steer and stop the work.
--
-- The parts and their files
--   Models               apps/api/app/models.py: the rows, the enums and the database (Models.Database),
--                        JSON values (Models.Values)
--   Tx                   a request's transaction; apps/api/app/db.py commits or rolls back
--   StateMachine         apps/api/app/state_machine.py; StateMachine.Paths has the walks of the graph
--   WorkerTransitions    apps/api/app/worker_transitions.py; Edges has WORKER_TRANSITIONS
--   Audit                add_audit and the tests on audit records of apps/api/app/audit.py
--   Service, Claim,      apps/api/app/service.py: events, new work and transitions; claim_next_work;
--   Leases               validate_lease, with release_run of main.py and, in Leases.Reconcile,
--                        apps/api/app/worker_leases.py
--   Accounts             what a worker has and what its leases reserve: at a claim (Accounts.Keep),
--                        a release (Settle) and a reconciliation (Reconciled)
--   Credentials          apps/api/app/worker_credentials.py
--   Quarantine           apps/api/app/worker_quarantine.py
--   Authorization        apps/api/app/authorization.py, and actor_from_identity of apps/api/app/auth.py
--   DeliveryAudit        apps/api/app/delivery_audit.py
--   Approval, Console,   the handlers of apps/api/app/main.py: approvals (decide_approval and the
--   Workers, Requests,   approval branch of slack_command), console_lease, the worker's requests,
--   Runs, Previews       feedback, submission and cancellation, the runner's requests, previews
--   Delivery             apps/api/app/delivery.py: its transactions; Delivery.Publish has the publication
--                        between them, Delivery.Recovery what follows a restart
--   Provision            apps/api/app/iam.py; Provision.Document has the policy and its validation
--   Retention            apps/api/app/artifact_retention.py; Retention.Group has locked_group,
--                        Retention.Records the audit records and the intents
--   Runner               apps/runner/kelpie_runner/main.py: what a run asks of the control plane, its
--                        loops here and ControlClient's two in Runner.Control
--   Redaction            apps/api/app/event_redaction.py and redact of
--                        apps/runner/kelpie_runner/main.py
--   Examples             a small installation, on which every theorem with a hypothesis is tried
--   Base                 names, tests on numbers, lists, and tables of rows with keys
--
-- How the parts interact. A handler checks the actor (Authorization) or the token (Leases), refuses what
-- belongs to a quarantined worker (Quarantine), changes the work item by transition_work_item (Service),
-- which asks StateMachine and, for a worker, WorkerTransitions, and adds events and audit records. A
-- delivery reads the audit record that an approval left (Approval, DeliveryAudit), under the locks that a
-- quarantine also takes.
--
-- Conventions. Functions have the source's names. Ids, names, digests, URLs and times are numbers (Key,
-- Time) where the code only compares or stores them, and texts where it looks inside. A table is a list
-- of rows, the newest first, with the database's unique keys; a row of the session is one object, so it
-- is saved under its key whenever the code assigns to it. A request is a function of its environment (the
-- clock, read once; the request's id; the digest of tokens; the lengths of the texts that keys stand for;
-- the peer's address) and of the database; its result is a value with the database after it, or an error,
-- and an error leaves the database as it was. Locks make the requests one after another; where the code
-- reads before it has a lock, that earlier database is an argument of its own (seen). What the code draws
-- at random (ids, tokens) is an argument.
-- All loops run over lists that a query or a document gave, so there is no fuel. A delivery attempt is a
-- function of what it meets outside (Delivery.Run.Outside): what other transactions make of the database
-- before each of its locks, and what each call of GitHub, git and the file system answers. A call at a
-- stage that writes to GitHub is put on record, with the locks that are held there if there are any. A
-- run of the runner is a function of its answers (Runner.Answers), and its loops run over their list.
--
-- Not modelled: the clients of GitHub and Slack, tracing, database failures of a delivery and the time
-- limit of its recovery, the webhook, the handlers and the storage of artifacts, the jobs that drive their retention, the
-- reading of the policy file, login and sessions, streaming, metrics, health and migrations, the
-- runner's processes, evidence and events, the validation of request bodies by pydantic (it is
-- assumed to have passed, but for EventCreate: Service.new_event has its limits, and stands where the
-- source or the message is not made of the program's own short texts), and the programs in other
-- languages (apps/web, apps/worker, apps/gateway).
-- The handlers take telemetry as it is after its redaction. The readiness checks on GitHub, the
-- bundle's and the artifacts' files, preview addresses and the lower case of a text are parameters.
pub mod Accounts
pub mod Approval
pub mod Audit
pub mod Authorization
pub mod Base
pub mod Claim
pub mod Console
pub mod Credentials
pub mod Delivery
pub mod Provision
pub mod Redaction
pub mod Runner
pub mod Retention
pub mod DeliveryAudit
pub mod Examples
pub mod Leases
pub mod Models
pub mod Previews
pub mod Quarantine
pub mod Requests
pub mod Runs
pub mod Service
pub mod StateMachine
pub mod Tx
pub mod WorkerTransitions
pub mod Workers
