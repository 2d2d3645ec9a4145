-- ===== src/System/Steps.antt =====
-- The steps. A worker ends an attempt, by `complete` or `fail`, while the attempt still runs: a worker
-- that comes back after the reaper gave its attempt up takes no step here (System/Late is about it).
use mt_jobs.Base.{ℕ, String, Bool, true, some, ◌≡◌}
use mt_jobs.Models.Json.{Json}
use mt_jobs.Models.Attempt.{JobAttempt, FailureType, is_running}
use mt_jobs.Domain.Exceptions.{Exception}
use mt_jobs.Store.Exec.{Exec}
use mt_jobs.Store.Db.{Db, find_attempt}
use mt_jobs.Services.Outbox.{World, Broker, publish_event}
use mt_jobs.Services.SchedulerState.{refresh_scheduler_state}
use mt_jobs.Services.Submission.{Submission, submit_job}
use mt_jobs.Services.Dispatcher.{dispatch_next}
use mt_jobs.Services.Execution.{claim_job, complete_job, fail_job}
use mt_jobs.Services.Failure.{fail_attempt}
use mt_jobs.Services.Retry.{promote_ready_retries}
use mt_jobs.Services.Cancellation.{cancel_job}
use mt_jobs.Services.Heartbeat.{heartbeat}
use mt_jobs.Services.Reconciliation.{reconcile_attempt, recover_queued}
use mt_jobs.Services.DeadLetter.{replay_dead_letter}

-- A service ran on the database.
abbrev pub after : {A : Type 0} → Exec Db A → World → World
after m w = record w { db = (m w.db).1 }

pub data Step (w : World) : World → Type 0 where
  submit :
      (now : ℕ) (generated : String) (s : Submission)
      → Step w (after (submit_job now generated s) w)
  refresh : (now t : ℕ) → Step w (after (refresh_scheduler_state now t) w)
  dispatch :
      (to_text : Json → String) (locked : ℕ → Bool) (now t : ℕ)
      → Step w (after (dispatch_next to_text locked now t) w)
  publish : (broker : Broker) (now i : ℕ) → Step w (publish_event broker now i w).1
  claim : (now : ℕ) (hostname : String) (i : ℕ) → Step w (after (claim_job now hostname i) w)
  beat : (now i : ℕ) → Step w (after (heartbeat now i) w)
  complete :
      (now i : ℕ) (a : JobAttempt) (result : Json)
      → find_attempt i w.db ≡ some a
      → is_running a.status ≡ true
      → Step w (after (complete_job now i result) w)
  fail :
      (now i : ℕ) (a : JobAttempt) (exc : Exception) (t : FailureType) (traceback : String)
      → find_attempt i w.db ≡ some a
      → is_running a.status ≡ true
      → Step w (after (fail_job now i exc t traceback) w)
  fails :
      (now i : ℕ) (a : JobAttempt) (exc : Exception) (t : FailureType)
      → find_attempt i w.db ≡ some a
      → is_running a.status ≡ true
      → Step w (after (fail_attempt now i exc t) w)
  promote :
      (locked : ℕ → Bool) (now limit : ℕ)
      → Step w (after (promote_ready_retries locked now limit) w)
  cancel : (now i : ℕ) → Step w (after (cancel_job now i) w)
  reap : (now i : ℕ) → Step w (after (reconcile_attempt now i) w)
  recover : (now i : ℕ) → Step w (after (recover_queued now i) w)
  replay :
      (now : ℕ) (generated : String) (i : ℕ) → Step w (after (replay_dead_letter now generated i) w)

-- A step of the dispatcher.
abbrev pub IsDispatch : World → World → Type 0
IsDispatch w v =
    (to_text : Json → String) × (locked : ℕ → Bool) × (now : ℕ) × (t : ℕ) × (v
      ≡ after (dispatch_next to_text locked now t) w)

-- A step that publishes an event.
abbrev pub IsPublish : World → World → Type 0
IsPublish w v = (broker : Broker) × (now : ℕ) × (i : ℕ) × (v ≡ (publish_event broker now i w).1)

-- A step that claims a job.
abbrev pub IsClaim : World → World → Type 0
IsClaim w v = (now : ℕ) × (hostname : String) × (i : ℕ) × (v ≡ after (claim_job now hostname i) w)

pub data Reach (w : World) : World → Type 0 where
  here : Reach w w
  next : {u v : World} → Reach w u → Step u v → Reach w v

pub Reach-trans : {u v w : World} → Reach u v → Reach v w → Reach u w
Reach-trans r here = r
Reach-trans r (next s t) = next (Reach-trans r s) t
