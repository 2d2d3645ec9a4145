-- ===== src/Tests/Services.antt =====
-- The theorems about single services, on the scenario.
use mt_jobs.Base.{true, false, not, some, ◌≡◌, ◌≢◌, ◌≤◌, ◌&&◌, refl, count, All, arith}
use mt_jobs.Models.Json.{Json, end, field}
use mt_jobs.Models.Job.{Job}
use mt_jobs.Models.Attempt.{FailureType}
use mt_jobs.Models.SchedulerState.{TenantSchedulerState}
use mt_jobs.Domain.Exceptions.{Exception, ok}
use mt_jobs.Store.Db.{find_job, find_state}
use mt_jobs.Services.SchedulerState.{refresh_scheduler_state, is_ready}
use mt_jobs.Services.Submission.{submit_job, has_key, key_or_generated}
use mt_jobs.Services.Dispatcher.{dispatch_next, queued_job}
use mt_jobs.Services.Execution.{fail_job}
use mt_jobs.Services.Failure.{fail_attempt}
use mt_jobs.Services.Heartbeat.{heartbeat, renew_lease}
use mt_jobs.Services.Reconciliation.{expired_attempts}
use mt_jobs.Services.Outbox.{Broker, publish_event}
use mt_jobs.Lifecycle.Rows.{SameIdentity}
use mt_jobs.Idempotency.Keys.{keys-le-one}
use mt_jobs.Idempotency.Resubmit.{resubmit}
use mt_jobs.Scheduling.Order.{IsEligible, IsNext, dispatch_next-IsNext}
use mt_jobs.Scheduling.Announce.{IsAnnounced, dispatch_next-IsAnnounced}
use mt_jobs.Scheduling.Refresh.{IsSummary, refresh-IsSummary}
use mt_jobs.Scheduling.Leases.{heartbeat-spares}
use mt_jobs.Workers.Failures.{AgreesButAttempts, fail_job-Agrees}
use mt_jobs.Workers.Outbox.{publish_event-fails}
use mt_jobs.Tests.Scenario.{
  run_all, to_text, unlocked, report, w1, w2, w3, w4, w5, to_w4, w4_to_w5, job, job_runs,
  waiting_job,
}

keys-le-one_example : count (has_key 7 "first") w4.db.jobs ≤ 1
keys-le-one_example = keys-le-one 7 "first" to_w4

resubmit_example :
    (y : Job) × (find_job 0 w5.db ≡ some y)
    × SameIdentity job y
    × (submit_job 200 "v" (record report { priority = 1 }) w5.db ≡ (ok (y, false), w5.db))
unfolding key_or_generated
resubmit_example =
    resubmit 0 job "first" to_w4 job_runs refl w4_to_w5 200 "v" (record report { priority = 1 })
      refl refl

dispatch_next-IsNext_example :
    (j : Job) × IsEligible unlocked 110 7 w2.db j
    × (queued_job 110 waiting_job ≡ queued_job 110 j)
    × All
        (λ k. (is_ready 110 7 k && not (unlocked k.id)) ≡ true → IsNext to_text 110 w2.db j k)
        w2.db.jobs
unfolding run_all
dispatch_next-IsNext_example =
    dispatch_next-IsNext to_text unlocked 110 7 w2.db (refl, tt) (queued_job 110 waiting_job) refl

refresh-IsSummary_example :
    (s : TenantSchedulerState) × (find_state 7 (refresh_scheduler_state 100 7 w1.db).1 ≡ some s)
    × IsSummary 100 7 w1.db.jobs s
refresh-IsSummary_example = refresh-IsSummary 100 7 w1.db

heartbeat-spares_example :
    All (λ k. k ≢ 4) (expired_attempts 300000200 100 (heartbeat 200 4 w4.db).1)
unfolding run_all heartbeat renew_lease
heartbeat-spares_example = heartbeat-spares 200 300000200 4 100 w4.db refl (omega arith)

fail_job-Agrees_example :
    AgreesButAttempts
      (fail_job 130 4 (Exception.value_error "bad") FailureType.unknown "trace" w4.db)
      (fail_attempt 130 4 (Exception.value_error "bad") FailureType.unknown w4.db)
fail_job-Agrees_example =
    fail_job-Agrees 130 4 (Exception.value_error "bad") FailureType.unknown "trace" w4.db

abbrev generated : Json
generated = Json.obj (field "report_id" Json.null (field "status" (Json.str "generated") end))

abbrev no_redis : Exception
no_redis = Exception.operational_error "connection refused"

abbrev down : Broker
down i = some no_redis

publish_event-fails_example : (publish_event down 115 3 w3).1 ≡ w3
unfolding run_all
publish_event-fails_example = publish_event-fails down 115 3 w3 no_redis refl

dispatch_next-IsAnnounced_example :
    IsAnnounced (queued_job 110 waiting_job) (dispatch_next to_text unlocked 110 7 w2.db).1
unfolding run_all
dispatch_next-IsAnnounced_example =
    dispatch_next-IsAnnounced to_text unlocked 110 7 w2.db (refl, tt) (queued_job 110 waiting_job)
      refl
