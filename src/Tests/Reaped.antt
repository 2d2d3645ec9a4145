-- ===== src/Tests/Reaped.antt =====
-- The worker of the first job is given up, and a second job takes the slot.
use mt_jobs.Base.{true, some, ◌≡◌, refl}
use mt_jobs.Models.Job.{Job}
use mt_jobs.Models.Attempt.{JobAttempt}
use mt_jobs.Models.SchedulerState.{TenantSchedulerState}
use mt_jobs.Store.Db.{find_job, find_attempt, find_state}
use mt_jobs.Services.Outbox.{World}
use mt_jobs.Services.SchedulerState.{refresh_scheduler_state}
use mt_jobs.Services.Submission.{submit_job}
use mt_jobs.Services.Dispatcher.{dispatch_next}
use mt_jobs.Services.Execution.{retrying_job}
use mt_jobs.Services.Reconciliation.{reconcile_attempt, abandoned_attempt}
use mt_jobs.Capacity.Balance.{IsBalanced}
use mt_jobs.System.Steps.{Step, Reach, here, next, after}
use mt_jobs.System.Limit.{Reach-IsBalanced}
use mt_jobs.Tests.Scenario.{run_all, report, to_text, unlocked, w4, w4-IsBalanced, job, attempt}

abbrev pub reaped : World
reaped = after (reconcile_attempt 400000000 4) w4

abbrev submitted : World
submitted =
    after (submit_job 400000001 "u" (record report { idempotency_key = some "second" })) reaped

abbrev refreshed : World
refreshed = after (refresh_scheduler_state 400000001 7) submitted

abbrev pub second_queued : World
second_queued = after (dispatch_next to_text unlocked 400000002 7) refreshed

w4_to_second_queued : Reach w4 second_queued
w4_to_second_queued =
    next
      (next
        (next (next here (Step.reap 400000000 4))
          (Step.submit 400000001 "u" (record report { idempotency_key = some "second" })))
        (Step.refresh 400000001 7))
      (Step.dispatch to_text unlocked 400000002 7)

pub second_queued-IsBalanced : IsBalanced second_queued.db
second_queued-IsBalanced = Reach-IsBalanced w4-IsBalanced w4_to_second_queued

abbrev pub given_up : JobAttempt
given_up = abandoned_attempt 400000000 attempt

abbrev pub retried : Job
retried = retrying_job 400000000 3 "Worker lease expired" job

pub attempt_given_up : find_attempt 4 second_queued.db ≡ some given_up
unfolding run_all
attempt_given_up = refl

pub job_retried : find_job 0 second_queued.db ≡ some retried
unfolding run_all
job_retried = refl

abbrev pub counter : TenantSchedulerState
counter = record {
  tenant = 7;
  active_reservations = 1;
  has_ready_work = true;
  highest_ready_priority = some 3;
  next_ready_at = some 400000001;
  last_dispatched_at = some 400000002;
  updated_at = 400000002;
}

pub counter_stands : find_state 7 second_queued.db ≡ some counter
unfolding run_all
counter_stands = refl
