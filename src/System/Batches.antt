-- ===== src/System/Batches.antt =====
-- The Celery tasks (jobs/tasks.py) and the views (jobs/views.py), and the steps that they make.
use mt_jobs.Base.{ℕ, String, Bool, true, false, List, [], ◌∷◌, if◌then◌else◌}
use mt_jobs.Models.Json.{Json}
use mt_jobs.Models.Job.{Job}
use mt_jobs.Store.Exec.{Exec, pure, >>=-keeps, ◌>>◌}
use mt_jobs.Store.Db.{Db}
use mt_jobs.Services.Outbox.{
  World, Broker, publish_event, publish_all, publish_pending, pending_events,
}
use mt_jobs.Services.Dispatcher.{dispatch_next}
use mt_jobs.Services.Reconciliation.{
  reconcile_attempt, recover_queued, reconcile_expired, reconcile_queued, for_each,
  expired_attempts, stuck_jobs,
}
use mt_jobs.Services.Submission.{Submission, submit_job}
use mt_jobs.Services.SchedulerState.{refresh_scheduler_state}
use mt_jobs.Services.Cancellation.{cancel_job}
use mt_jobs.Services.DeadLetter.{replay_dead_letter}
use mt_jobs.Tasks.{
  dispatch_each, dispatch_jobs, process_retries, publish_outbox, reconcile_zombies, ready_tenants,
}
use mt_jobs.Views.{Request, create, cancel, replay, with_key}
use mt_jobs.System.Steps.{Step, Reach, here, next, after}

-- The databases that steps lead to.
abbrev From : World → Db → Type 0
From w d = Reach w (record w { db = d })

dispatch_each-From :
    (w : World) (to_text : Json → String) (locked : ℕ → Bool) (now : ℕ) (tenants : List ℕ) (d : Db)
    → From w d
    → From w (dispatch_each to_text locked now tenants d).1
unfolding dispatch_each
dispatch_each-From w to_text locked now [] d r = r
dispatch_each-From w to_text locked now (t ∷ rest) d r =
    >>=-keeps (From w) (dispatch_next to_text locked now t)
      (λ _. dispatch_each to_text locked now rest) d (next r (Step.dispatch to_text locked now t))
      (λ _ e r'. dispatch_each-From w to_text locked now rest e r')

for_each-From :
    (w : World) (step : ℕ → Exec Db (Unit {0}))
    → ((i : ℕ) (d : Db) → From w d → From w (step i d).1)
    → (ids : List ℕ) (d : Db) → From w d
    → From w (for_each step ids d).1
unfolding for_each
for_each-From w step keeps [] d r = r
for_each-From w step keeps (i ∷ rest) d r =
    >>=-keeps (From w) (step i) (λ _. for_each step rest) d (keeps i d r)
      (λ _ e r'. for_each-From w step keeps rest e r')

reconcile_expired-From :
    (w : World) (now limit : ℕ) (d : Db) → From w d → From w (reconcile_expired now limit d).1
unfolding reconcile_expired reconcile_queued
reconcile_expired-From w now limit d r =
    >>=-keeps (From w) (for_each (reconcile_attempt now) (expired_attempts now limit d))
      (λ _. reconcile_queued now limit) d
      (for_each-From w (reconcile_attempt now) (λ i e q. next q (Step.reap now i))
        (expired_attempts now limit d) d r)
      (λ _ e q.
        for_each-From w (recover_queued now) (λ i f p. next p (Step.recover now i))
          (stuck_jobs now limit e) e q)

publish_all-Reach :
    (w : World) (broker : Broker) (now : ℕ) (ids : List ℕ) (v : World)
    → Reach w v
    → Reach w (publish_all broker now ids v).1
unfolding publish_all
publish_all-Reach w broker now [] v r = r
publish_all-Reach w broker now (i ∷ rest) v r =
    >>=-keeps (Reach w) (publish_event broker now i) (λ _. publish_all broker now rest) v
      (next r (Step.publish broker now i)) (λ _ u q. publish_all-Reach w broker now rest u q)

-- From every state, each of the tasks `dispatch_jobs`, `process_retries`, `publish_outbox` and
-- `reconcile_zombies` leads to a state that a sequence of steps leads to, also where a call in its
-- loop raises.
pub tasks-Reach :
    (to_text : Json → String) (locked : ℕ → Bool) (broker : Broker) (now : ℕ) (w : World)
    → Reach w (after (dispatch_jobs to_text locked now) w)
      × Reach w (after (process_retries locked now) w)
      × Reach w (publish_outbox broker now w).1
      × Reach w (after (reconcile_zombies now) w)
unfolding dispatch_jobs process_retries publish_outbox reconcile_zombies publish_pending
tasks-Reach to_text locked broker now w = (
  dispatch_each-From w to_text locked now (ready_tenants w.db) w.db here,
  next here (Step.promote locked now 100),
  publish_all-Reach w broker now (pending_events now 100 w.db) w here,
  reconcile_expired-From w now 100 w.db here,
)

abbrev response : Job → ℕ → Exec Db (Job × ℕ)
response job status = pure (job, status)

-- The answer of the view that creates a job.
respond-From :
    (w : World) (now : ℕ) (r : Job × Bool) (d : Db)
    → From w d
    → From w
        ((if r.1
            then refresh_scheduler_state now r.0.tenant >> response r.0 201
            else response r.0 200)
          d).1
respond-From w now (job, true) d q =
    >>=-keeps (From w) (refresh_scheduler_state now job.tenant) (λ _. response job 201) d
      (next q (Step.refresh now job.tenant)) (λ _ e p. p)
respond-From w now (job, false) d q = q

pub create-Reach :
    (now : ℕ) (generated : String) (request : Request) (job_data : Submission) (w : World)
    → Reach w (after (create now generated request job_data) w)
unfolding create
create-Reach now generated request job_data w =
    >>=-keeps (From w) (submit_job now generated (with_key request job_data)) _ w.db
      (next here (Step.submit now generated (with_key request job_data))) (respond-From w now)

pub cancel-Reach : (now pk : ℕ) (w : World) → Reach w (after (cancel now pk) w)
unfolding cancel
cancel-Reach now pk w =
    >>=-keeps (From w) (cancel_job now pk) _ w.db (next here (Step.cancel now pk)) (λ j e r. r)

pub replay-Reach :
    (now : ℕ) (generated : String) (pk : ℕ) (w : World)
    → Reach w (after (replay now generated pk) w)
unfolding replay
replay-Reach now generated pk w =
    >>=-keeps (From w) (replay_dead_letter now generated pk) _ w.db
      (next here (Step.replay now generated pk)) (λ j e r. r)

-- From every state, each of the views that create a job, cancel a job and replay a dead letter
-- leads to a state that a sequence of steps leads to, also where a service raises.
pub views-Reach :
    (now : ℕ) (generated : String) (request : Request) (job_data : Submission) (pk : ℕ) (w : World)
    → Reach w (after (create now generated request job_data) w)
      × Reach w (after (cancel now pk) w)
      × Reach w (after (replay now generated pk) w)
views-Reach now generated request job_data pk w = (
  create-Reach now generated request job_data w,
  cancel-Reach now pk w,
  replay-Reach now generated pk w,
)
