-- ===== src/Previews.antt =====
-- `register_preview` and `resolve_preview` of apps/api/app/main.py: how a run's preview and console are
-- reached.
pub mod Resolve
use Prim.Native.String.{◌++◌}
use dev_agent.Base.{
  ℕ, ◌+◌, Key, Time, Bool, true, false, Option, none, some, List, ◌∷◌, not, String, nat_beq, ltb,
  is_some,
}
use dev_agent.Base.Table.{find, save}
use dev_agent.Base.Table.Rows.{first}
use dev_agent.Models.{
  Db, PreviewEndpoint, ConsoleLease, Holder, agent, user, Json, end, field, bool, text, WorkerHost,
  work_keyed, worker_keyed, preview_keyed, console_keyed,
}
use dev_agent.Leases.{validate_lease, get_work_item}
use dev_agent.Service.{new_event, emit_event}
use dev_agent.Tx.{Tx, Error, http, pure, require, or_raise, reads, asks, modify, ◌>>=◌, ◌>>◌}

-- What `urlsplit` and `ipaddress` say of a URL: its host is a literal IP, and one in an allowed network.
pub record Addresses : Type 0 where
  pub is_literal : Key → Bool
  pub is_allowed : Key → Bool

unfoldable pub ensure_allowed_preview_target : Addresses → Key → Tx (Unit {0})
ensure_allowed_preview_target a url = do
  require (a.is_literal url)
      (http 422 "preview target must use a literal IP in an allowed VM network")
  require (a.is_allowed url) (http 422 "preview target is outside the allowed VM networks")

-- `PreviewCreate`; a missing console URL is `none`.
pub record PreviewCreate : Type 0 where
  pub target_url : Key
  pub console_target_url : Option Key
  pub ttl_seconds : ℕ

abbrev pub check_console_target : Addresses → Option Key → Tx (Unit {0})
check_console_target a none = pure tt
check_console_target a (some url) = ensure_allowed_preview_target a url

-- `WorkItem.id` with the preview domain, as a key and as the text in the message, and the id that a
-- new row draws.
pub record Hostname : Type 0 where
  pub hostname : Key
  pub spelling : String
  pub fresh_id : Key

unfoldable pub endpoint_after :
    PreviewCreate → Hostname → Key → Time → Option PreviewEndpoint → PreviewEndpoint
endpoint_after p h work_item_id now none = record {
  id = h.fresh_id;
  work_item_id = work_item_id;
  hostname = h.hostname;
  target_url = p.target_url;
  console_target_url = p.console_target_url;
  expires_at = now + p.ttl_seconds;
  created_at = now;
}
endpoint_after p h work_item_id now (some old) = record old {
  target_url = p.target_url;
  console_target_url = p.console_target_url;
  expires_at = now + p.ttl_seconds;
}

abbrev pub store_endpoint :
    PreviewEndpoint → Option PreviewEndpoint → List PreviewEndpoint → List PreviewEndpoint
store_endpoint p none ps = p ∷ ps
store_endpoint p (some old) ps = save p ps

-- A console that is there keeps its holder and its version.
abbrev pub ensure_console :
    Key → Time → Time → Option ConsoleLease → List ConsoleLease → List ConsoleLease
ensure_console i expiry now none cs =
    record { work_item_id = i; holder = agent; version = 1; expires_at = expiry; updated_at = now }
    ∷ cs
ensure_console i expiry now (some c) cs = cs

unfoldable pub register_preview :
    Db → Key → Option Key → ℕ → Addresses → PreviewCreate → Hostname → Tx PreviewEndpoint
unfolding ensure_allowed_preview_target endpoint_after
register_preview seen work_item_id token lease_seconds addresses payload host = do
  validate_lease seen work_item_id token lease_seconds
  get_work_item work_item_id
  ensure_allowed_preview_target addresses payload.target_url
  check_console_target addresses payload.console_target_url
  now ← asks (λ e. e.now)
  known ← reads (λ db. find work_item_id db.previews)
  console ← reads (λ db. find work_item_id db.consoles)
  let endpoint = endpoint_after payload host work_item_id now known
  modify (λ db. record db {
    previews = store_endpoint endpoint known db.previews;
    consoles = ensure_console work_item_id (now + payload.ttl_seconds) now console db.consoles;
  })
  event ← new_event (record {
    event_type = "preview.registered";
    source = text "control-plane";
    level = "info";
    message = "Preview available at https://" ++ host.spelling;
    payload =
        field "hostname" (Json.ident host.hostname)
          (field "console" (bool (is_some payload.console_target_url)) end);
  })
  emit_event work_item_id event
  pure endpoint

pub record Resolution : Type 0 where
  pub target_url : Key
  pub work_item_id : Key
  pub read_only : Bool

abbrev pub unavailable : Error
unavailable = http 410 "preview unavailable"

-- The endpoint of a host and the worker assigned to its work: the join of the query.
unfoldable pub match_host : Key → Db → Option (PreviewEndpoint × Option Key)
match_host host db = elim (first (λ p. nat_beq p.hostname host) db.previews) [
  | none ↦ none
  | some p ↦ elim (find p.work_item_id db.works) [
    | none ↦ none
    | some w ↦ some (p, w.assigned_worker_id)
  ]
]

abbrev pub locked_worker : Option Key → Db → Option WorkerHost
locked_worker none db = none
locked_worker (some i) db = find i db.workers

-- `lease.holder_type != "user"`
abbrev pub reads_only : Holder → Bool
reads_only agent = true
reads_only (user k) = false

-- What is shown of an endpoint: the preview, or the console.
unfoldable pub show_endpoint : PreviewEndpoint → (console : Bool) → Tx Resolution
show_endpoint p false =
    pure (record { target_url = p.target_url; work_item_id = p.work_item_id; read_only = true })
show_endpoint p true = do
  target ← or_raise p.console_target_url (http 404 "console not available")
  lease ←
      or_raise (← reads (λ db. find p.work_item_id db.consoles))
        (http 409 "console lease is unavailable")
  pure (record {
    target_url = target;
    work_item_id = p.work_item_id;
    read_only = reads_only lease.holder;
  })

-- `host` is in lower case already. `seen` is the database before the worker's lock was granted.
unfoldable pub resolve_preview : Db → Key → (console : Bool) → Tx Resolution
unfolding match_host show_endpoint
resolve_preview seen host console = do
  (matched, assigned) ← or_raise (match_host host seen) (http 404 "preview not found")
  worker ← or_raise (← reads (locked_worker assigned)) unavailable
  require (not (is_some worker.quarantined_at)) unavailable
  endpoint ← or_raise (← reads (λ db. first (λ p. nat_beq p.id matched.id) db.previews)) unavailable
  now ← asks (λ e. e.now)
  require (not (ltb endpoint.expires_at now)) (http 410 "preview expired")
  show_endpoint endpoint console
