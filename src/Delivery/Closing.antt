-- ===== src/Delivery/Closing.antt =====
-- What each ending of an attempt leaves in the database (apps/api/app/delivery.py, `_deliver_work`).
use dev_agent.Base.{◌≡◌, Key, Option, some}
use dev_agent.Models.{Db, completed, failed, done, broken, job_keyed, work_keyed, bundle_keyed}
use dev_agent.Delivery.Stages.{authorization}
use dev_agent.Delivery.Run.{Run, Outside, during, stopping}
use dev_agent.Delivery.Finalize.{Settled}
use dev_agent.Delivery.Endings.{published_url}
use dev_agent.Delivery.Publish.{
  Ending, unstarted, unauthorized, published, stopped_late, broke, lost,
}

-- The rows that a stopped attempt must not change.
pub record SameRows (before db : Db) : Type 0 where
  pub works : db.works ≡ before.works
  pub jobs : db.jobs ≡ before.jobs
  pub workers : db.workers ≡ before.workers
  pub leases : db.leases ≡ before.leases

-- By the ending: the work is completed with the pull request's URL and the job done; or both have
-- failed; or a stop left them as other transactions had. The handlers themselves do not fail.
abbrev pub Left : Outside → Key → Ending → Db → Type 0
Left o i published db = Settled i completed done (some (published_url o o.found)) db
Left o i broke db = (url : Option Key) × Settled i failed broken url db
Left o i unauthorized db = (url : Option Key) × Settled i failed broken url db
Left o i stopped_late db = (before : Db) × SameRows (o.meanwhile stopping before) db
Left o i unstarted db = (before : Db) × (db ≡ o.meanwhile (during authorization) before)
Left o i lost db = ⊥
