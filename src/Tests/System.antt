-- ===== src/Tests/System.antt =====
-- The theorems about the running system, on the scenario.
use mt_jobs.Base.{true, Option, none, some, ◌≡◌, ◌≤◌, ◌+◌, refl, count, arith}
use mt_jobs.Models.Json.{Json}
use mt_jobs.Models.Job.{Job, JobStatus}
use mt_jobs.Models.Attempt.{FailureType}
use mt_jobs.Domain.Exceptions.{Exception, ok}
use mt_jobs.Store.Db.{Db, find_job, find_state}
use mt_jobs.Services.Cancellation.{cancel_job}
use mt_jobs.Services.Execution.{
  complete_job, fail_job, succeeded_job, retrying_job, retry_after, succeeded_attempt,
  released_state,
}
use mt_jobs.Capacity.Balance.{IsBalanced, occupies, of_tenant, active_of}
use mt_jobs.Capacity.Complete.{complete_job-succeeds}
use mt_jobs.Capacity.Fail.{Settled, fail_job-Settled, reconcile_attempt-Settled}
use mt_jobs.Services.Reconciliation.{reconcile_attempt}
use mt_jobs.Lifecycle.Rows.{SameIdentity, attempt_cap}
use mt_jobs.Lifecycle.Edges.{Walk}
use mt_jobs.System.Steps.{Step, here, next, after}
use mt_jobs.System.Limit.{jobs-le-limit, active-eq-reservations}
use mt_jobs.System.Life.{attempts-le-cap, status-Walk, job-SameIdentity, terminal-Stays}
use mt_jobs.System.Late.{late_complete-unbalanced, late_fail-revives}
use mt_jobs.Tests.Scenario
use mt_jobs.Tests.Scenario.{
  run_all, acme, w3, w4, w5, to_w3, to_w4, w4_to_w5, job, attempt, job_runs, attempt_runs,
  w4-IsBalanced, w5-IsBalanced,
}
use mt_jobs.Tests.Reaped

abbrev first_status : Option Job → Option JobStatus
first_status none = none
first_status (some j) = some j.status

dispatched : first_status (find_job 0 w3.db) ≡ some JobStatus.queued
unfolding run_all
dispatched = refl

jobs-le-limit_example : count (occupies 7) w4.db.jobs ≤ 1
unfolding run_all
jobs-le-limit_example = jobs-le-limit 7 acme to_w4 refl

active-eq-reservations_example :
    active_of (find_state 7 w4.db) ≡ count (of_tenant 7) w4.db.reservations
active-eq-reservations_example = active-eq-reservations 7 to_w4

attempts-le-cap_example : (1 ≤ 4) × (1 ≤ attempt_cap JobStatus.executing)
attempts-le-cap_example = attempts-le-cap 0 job to_w4 job_runs

status-Walk_example : (y : Job) × (find_job 0 w5.db ≡ some y) × Walk JobStatus.executing y.status
status-Walk_example = status-Walk 0 job w4-IsBalanced w4_to_w5 job_runs

job-SameIdentity_example : (y : Job) × (find_job 0 w5.db ≡ some y) × SameIdentity job y
job-SameIdentity_example = job-SameIdentity 0 job w4-IsBalanced w4_to_w5 job_runs

abbrev done : Job
done = succeeded_job 130 (Json.bool true) job

terminal-Stays_example : find_job 0 (after (cancel_job 140 0) w5).db ≡ some done
unfolding run_all
terminal-Stays_example =
    terminal-Stays {w = w5} 0 done w5-IsBalanced (next here (Step.cancel 140 0)) refl refl

complete_job-succeeds_example :
    (d' : Db) × (complete_job 130 4 (Json.bool true) w4.db ≡ (ok tt, d'))
    × IsBalanced d'
    × ((j : Job) × (find_job 0 w4.db ≡ some j)
        × (find_job 0 d' ≡ some (succeeded_job 130 (Json.bool true) j)))
complete_job-succeeds_example =
    complete_job-succeeds w4.db 4 attempt attempt_runs refl w4-IsBalanced 130 (Json.bool true)

abbrev down : Exception
down = Exception.retryable_job_error "down"

fail_job-Settled_example :
    (j : Job) × (find_job 0 w4.db ≡ some j)
    × Settled 130 "down" attempt
        (retry_after FailureType.transient j.attempt_count)
        j
        (fail_job 130 4 down FailureType.transient "trace" w4.db)
unfolding run_all
fail_job-Settled_example =
    fail_job-Settled w4.db 4 attempt attempt_runs refl w4-IsBalanced 130 down FailureType.transient
      "trace"

reconcile_attempt-Settled_example :
    (j : Job) × (find_job 0 w4.db ≡ some j)
    × Settled 400000000 "Worker lease expired" attempt
        (retry_after FailureType.infrastructure j.attempt_count)
        j
        (reconcile_attempt 400000000 4 w4.db)
reconcile_attempt-Settled_example =
    reconcile_attempt-Settled w4.db 4 attempt attempt_runs refl w4-IsBalanced 400000000

late_complete-unbalanced_example :
    let d' = (complete_job 400000003 4 (Json.bool true) Reaped.second_queued.db).1 in
    (active_of (find_state 7 d') + 1 ≡ count (of_tenant 7) d'.reservations) × (¬ IsBalanced d')
late_complete-unbalanced_example =
    late_complete-unbalanced Reaped.second_queued.db 4 Reaped.given_up Reaped.retried Reaped.counter
      Reaped.attempt_given_up Reaped.job_retried Reaped.counter_stands 400000003 (Json.bool true)
      refl (omega arith) Reaped.second_queued-IsBalanced

late_fail-revives_example :
    find_job 0 (fail_job 140 4 down FailureType.transient "trace" w5.db).1
    ≡ some (retrying_job 140 3 "down" done)
unfolding run_all
late_fail-revives_example =
    late_fail-revives w5.db 4 (succeeded_attempt 130 attempt) done
      (released_state 130 Scenario.counter) refl refl refl 140 3 down FailureType.transient "trace"
      refl
