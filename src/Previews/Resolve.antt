-- ===== src/Previews/Resolve.antt =====
-- What `resolve_preview` of apps/api/app/main.py asks for.
use dev_agent.Base.{
  ◌≤◌, ◌≡◌, refl, Key, Option, none, some, Bool, true, false, arith, Option-cases, inl, inr,
  nat_beq,
}
use dev_agent.Base.Table.{find}
use dev_agent.Base.Table.Rows.{first}
use dev_agent.Models.{
  Db, PreviewEndpoint, WorkerHost, ConsoleLease, user, preview_keyed, worker_keyed, console_keyed,
  Holder, agent,
}
use dev_agent.Previews.{
  resolve_preview, match_host, locked_worker, show_endpoint, Resolution, reads_only,
}
use dev_agent.Tx.{Env, ok}

pub record Shown (seen : Db) (host : Key) (console : Bool) (e : Env) (db : Db) (r : Resolution)
    : Type 0 where
  pub matched : PreviewEndpoint
  pub assigned : Option Key
  pub worker : WorkerHost
  pub endpoint : PreviewEndpoint
  pub known : match_host host seen ≡ some (matched, assigned)
  pub locked : locked_worker assigned db ≡ some worker
  pub not_quarantined : worker.quarantined_at ≡ none
  pub current : first (λ p. nat_beq p.id matched.id) db.previews ≡ some endpoint
  pub unexpired : e.now ≤ endpoint.expires_at
  pub of_work : r.work_item_id ≡ endpoint.work_item_id
  pub takes_input :
      r.read_only ≡ false
      → (console ≡ true)
        × ((c : ConsoleLease) × (k : Key) × (find endpoint.work_item_id db.consoles ≡ some c)
            × (c.holder ≡ user k))

is_user : (h : Holder) → reads_only h ≡ false → (k : Key) × (h ≡ user k)
is_user agent h = absurd (ground arith)
is_user (user k) h = (k, refl)

show_takes_input :
    (p : PreviewEndpoint) (console : Bool) (e : Env) (db db' : Db) (r : Resolution)
    → show_endpoint p console e db ≡ ok (r, db')
    → r.read_only ≡ false
    → (console ≡ true)
      × ((c : ConsoleLease) × (k : Key) × (find p.work_item_id db.consoles ≡ some c)
          × (c.holder ≡ user k))
unfolding show_endpoint
show_takes_input p false e db db' r h w = absurd (ground arith)
show_takes_input p true e db db' r h w = elim (Option-cases p.console_target_url) [
  | inl missing ↦ absurd (ground arith)
  | inr (t, there) ↦ elim (Option-cases (find p.work_item_id db.consoles)) [
    | inl missing ↦ absurd (ground arith)
    | inr (c, found) ↦ let u = is_user c.holder (ground arith) in (refl, (c, u.0, found, u.1))
  ]
]

show_of_work :
    (p : PreviewEndpoint) (console : Bool) (e : Env) (db db' : Db) (r : Resolution)
    → show_endpoint p console e db ≡ ok (r, db')
    → r.work_item_id ≡ p.work_item_id
unfolding show_endpoint
show_of_work p false e db db' r h = ground arith
show_of_work p true e db db' r h = ground arith

module _ (seen : Db) (host : Key) (console : Bool) (e : Env) (db : Db) where
  -- A preview is resolved only for a known host whose work is assigned to a worker that is not
  -- quarantined when the answer is given, and before the endpoint expires. It takes input only as
  -- a console that a person holds.
  pub resolve_ok :
      {r : Resolution} {db' : Db}
      → resolve_preview seen host console e db ≡ ok (r, db')
      → Shown seen host console e db r
  unfolding resolve_preview
  resolve_ok {r} {db'} h = elim (Option-cases (match_host host seen)) [
    | inl missing ↦ absurd (ground arith)
    | inr ((m, a), known) ↦ elim (Option-cases (locked_worker a db)) [
      | inl missing ↦ absurd (ground arith)
      | inr (w, locked) ↦ elim (Option-cases (first (λ p. nat_beq p.id m.id) db.previews)) [
        | inl missing ↦ absurd (ground arith)
        | inr (p, current) ↦
            let shown : show_endpoint p console e db ≡ ok (r, db') = ground arith in
            record {
              matched = m;
              assigned = a;
              worker = w;
              endpoint = p;
              known = known;
              locked = locked;
              not_quarantined = ground arith;
              current = current;
              unexpired = ground arith;
              of_work = show_of_work p console e db db' r shown;
              takes_input = λ ro. show_takes_input p console e db db' r shown ro;
            }
      ]
    ]
  ]
