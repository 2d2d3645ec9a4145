-- ===== src/Services/Outbox.antt =====
-- jobs/services/outbox.py. The broker holds the ids of the jobs that were enqueued, and says of a
-- call of `execute_job.delay` whether it raises.
use mt_jobs.Base.{
  ℕ, Bool, Option, none, some, List, [], ◌∷◌, ◌++◌, ◌+◌, ◌&&◌, leb, if◌then◌else◌, filter, take,
  map,
}
use mt_jobs.Base.Sort.{order_by}
use mt_jobs.Models.Outbox.{JobOutbox, OutboxStatus, is_pending}
use mt_jobs.Domain.Exceptions.{Exception, Result, ok, err, str}
use mt_jobs.Store.Exec.{Exec, pure, raise, gets, ◌>>=◌, ◌>>◌}
use mt_jobs.Store.Db.{Db, get_outbox, save_outbox}

pub record World : Type 0 where
  pub db : Db
  pub queue : List ℕ  -- the messages that the broker accepted, oldest first

abbrev pub on_db : {A : Type 0} → Exec Db A → Exec World A
on_db m w = let (r, d) = m w.db in (r, record w { db = d })

abbrev roll_back_db : {A : Type 0} → World → Result A × World → Result A × World
roll_back_db w (ok a, w') = (ok a, w')
roll_back_db w (err e, w') = (err e, record w' { db = w.db })

-- `@transaction.atomic` takes back the database, not what the broker was sent.
abbrev pub atomic_db : {A : Type 0} → Exec World A → Exec World A
atomic_db m w = roll_back_db w (m w)

-- The answer of the broker to one message: accepted, or the exception of `delay`.
abbrev pub Broker : Type 0
Broker = ℕ → Option Exception

abbrev answered : ℕ → World → Option Exception → Result (Unit {0}) × World
answered job_id w none = (ok tt, record w { queue = w.queue ++ job_id ∷ [] })
answered job_id w (some e) = (err e, w)

-- `execute_job.delay(job_id)`
unfoldable pub delay : Broker → ℕ → Exec World (Unit {0})
delay broker job_id w = answered job_id w (broker job_id)

abbrev pub published_event : ℕ → JobOutbox → JobOutbox
published_event now event = record event {
  status = OutboxStatus.published;
  published_at = some now;
  updated_at = now;
}

abbrev pub failed_event : ℕ → Exception → JobOutbox → JobOutbox
failed_event now e event = record event {
  publish_attempts = event.publish_attempts + 1;
  last_error = some (str e);
  updated_at = now;
}

-- The `try` with its `except` and `finally`: the event is saved, and the exception goes on.
unfoldable pub send_event : ℕ → JobOutbox → Result (Unit {0}) × World → Result (Unit {0}) × World
send_event now event (ok _, w) = on_db (save_outbox (published_event now event)) w
send_event now event (err e, w) = (on_db (save_outbox (failed_event now e event)) >> raise e) w

unfoldable pub publish_event : Broker → ℕ → ℕ → Exec World (Unit {0})
unfolding send_event delay
publish_event broker now event_id = atomic_db (do
  event ← on_db (get_outbox event_id)
  if is_pending event.status
      then (λ w. send_event now event (delay broker event.job w))
      else pure tt)

abbrev pub is_due : ℕ → JobOutbox → Bool
is_due now e = is_pending e.status && leb e.available_at now

abbrev pub created_before : JobOutbox → JobOutbox → Bool
created_before a b = leb a.created_at b.created_at

unfoldable pub pending_events : ℕ → ℕ → Db → List ℕ
pending_events now limit d =
    take limit
      (map (λ (e : JobOutbox). e.id) (order_by created_before (filter (is_due now) d.outbox)))

unfoldable pub publish_all : Broker → ℕ → List ℕ → Exec World (Unit {0})
publish_all broker now [] = pure tt
publish_all broker now (i ∷ rest) = publish_event broker now i >> publish_all broker now rest

unfoldable pub publish_pending : Broker → ℕ → ℕ → Exec World (Unit {0})
unfolding pending_events publish_all
publish_pending broker now limit = do
  event_ids ← gets (λ (w : World). pending_events now limit w.db)
  publish_all broker now event_ids
