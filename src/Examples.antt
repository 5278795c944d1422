-- ===== src/Examples.antt =====
-- A small installation, on which the theorems are tried: one organization with a repository,
-- one worker, and one work item in each of the interesting states.
mod Work
mod Hosts
mod People
mod Deliveries
mod Policies
mod Outside
use dev_agent.Base.{ℕ, Key, none, some, [], ◌∷◌, true, ◌+◌, Option}
use dev_agent.Models.{
  Db, Iam, WorkItem, WorkerHost, ResourceLease, WorkerCredential, WorkStatus, online, web_source,
  queued, completed, committing, active, end, approver, agent, DeliveryBundle, ConsoleLease,
  PreviewEndpoint, Repository, viewer, ident,
}
use dev_agent.Authorization.{Actor}
use dev_agent.Tx.{Env, Result, ok, err}

-- The digest of a token is its number plus 800.
abbrev pub env : Env
env = record {
  now = 100;
  request_id = 77;
  hash_token = λ t. t + 800;
  text_length = λ k. 20;
  source_ip = none;
}

abbrev pub later : Env
later = record {
  now = 200;
  request_id = 78;
  hash_token = λ t. t + 800;
  text_length = λ k. 20;
  source_ip = none;
}

abbrev pub work : (id : Key) → WorkStatus → (version : ℕ) → Option Key → WorkItem
work id status version worker = record {
  id = id;
  organization_id = 5;
  correlation_id = 50 + id;
  source = web_source;
  source_external_id = none;
  title = "title";
  requirement = "requirement";
  repository = 7;
  status = status;
  version = version;
  requested_by = 3;
  assigned_worker_id = worker;
  budget_minutes = 60;
  budget_cost = none;
  replan_limit = 3;
  approval_required = true;
  github_installation_id = some 4;
  github_issue_number = none;
  pull_request_url = none;
  created_at = id;
  updated_at = id;
}

abbrev pub waiting : WorkItem
waiting = work 10 queued 1 none

abbrev pub finished : WorkItem
finished = work 11 completed 6 (some 1)

abbrev pub in_review : WorkItem
in_review = work 12 committing 7 (some 1)

abbrev pub host : WorkerHost
host = record {
  id = 1;
  name = 2;
  credential_required = true;
  quarantined_at = none;
  state = online;
  cpu_total = 8;
  cpu_available = 6;
  memory_mb_total = 1000;
  memory_mb_available = 900;
  disk_gb_available = 50;
  active_runs = 1;
  labels = end;
  last_seen_at = 90;
  created_at = 1;
}

abbrev pub lease : ResourceLease
lease = record {
  id = 21;
  work_item_id = 11;
  worker_id = 1;
  token_hash = 900;
  state = active;
  cpu = 2;
  memory_mb = 100;
  disk_gb = 5;
  expires_at = 150;
  created_at = 20;
}

abbrev pub credential : WorkerCredential
credential = record {
  id = 31;
  worker_id = 1;
  token_hash = 840;
  expires_at = 1000;
  revoked_at = none;
  last_used_at = none;
  created_at = 2;
}

abbrev pub bundle : DeliveryBundle
bundle = record {
  work_item_id = 12;
  object_path = 61;
  sha256 = 62;
  size_bytes = 63;
  created_at = 64;
}

abbrev pub console_row : ConsoleLease
console_row = record {
  work_item_id = 12;
  holder = agent;
  version = 1;
  expires_at = 500;
  updated_at = 30;
}

abbrev pub preview : PreviewEndpoint
preview = record {
  id = 70;
  work_item_id = 12;
  hostname = 71;
  target_url = 72;
  console_target_url = some 73;
  expires_at = 500;
  created_at = 30;
}

abbrev pub repository : Repository
repository = record { name = 7; organization_id = 5; github_installation_id = some 4 }

abbrev pub iam : Iam
iam = record {
  organizations = [];
  principals = [];
  memberships = [];
  repositories = repository ∷ [];
  grants = record { repository = 7; principal_id = 3; role = approver } ∷ [];
  slack_identities = [];
}

abbrev pub db : Db
db = record {
  works = in_review ∷ finished ∷ waiting ∷ [];
  workers = host ∷ [];
  credentials = credential ∷ [];
  credential_events = [];
  leases = lease ∷ [];
  events = [];
  audits = [];
  feedback = [];
  approvals = [];
  previews = preview ∷ [];
  consoles = console_row ∷ [];
  bundles = bundle ∷ [];
  jobs = [];
  artifacts = [];
  iam = iam;
}

-- A member who is a viewer of the organization and an approver of the repository.
abbrev pub member : Actor
member = record {
  subject = 3;
  role = some viewer;
  identity_provider = ident 9;
  organization = 5;
  principal_id = some 3;
}

abbrev pub outsider : Actor
outsider = record {
  subject = 8;
  role = some approver;
  identity_provider = ident 9;
  organization = 6;
  principal_id = none;
}

-- The value of a request that returned.
abbrev pub value_or {ℓ} : {A : Type ℓ} → A → Result (A × Db) → A
value_or a (ok (b, db')) = b
value_or a (err x) = a
