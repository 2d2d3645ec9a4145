-- ===== src/Tests/Requests.antt =====
-- The theorems about tasks, views and requests, on the scenario.
use mt_jobs.Base.{some, ◌≡◌, refl, arith}
use mt_jobs.Models.Job.{Job, JobStatus}
use mt_jobs.Models.Attempt.{FailureType}
use mt_jobs.Domain.Exceptions.{Exception, ok}
use mt_jobs.Store.Db.{find_job}
use mt_jobs.Services.Execution.{fail_job, failed_job, retrying_job}
use mt_jobs.Services.Retry.{promote_ready_retries}
use mt_jobs.Services.Cancellation.{cancel_job}
use mt_jobs.Services.DeadLetter.{replay_dead_letter, clone}
use mt_jobs.System.Steps.{Step, Reach, next, after}
use mt_jobs.Services.Outbox.{World}
use mt_jobs.Scheduling.Backoff.{retry-waits}
use mt_jobs.Clients.Cancel.{cancel_job-result}
use mt_jobs.Clients.Replay.{Replayed, replay_dead_letter-succeeds}
use mt_jobs.Tests.Scenario.{
  run_all, w0, to_w4, unlocked, w4, job, attempt, job_runs, attempt_runs, w4-IsBalanced,
}

cancel_job-result_example :
    (y : Job) × ((cancel_job 130 0 w4.db).0 ≡ ok y)
    × (find_job 0 (cancel_job 130 0 w4.db).1 ≡ some y)
    × (y.status ≡ JobStatus.cancel_requested)
cancel_job-result_example = cancel_job-result 130 0 w4.db job job_runs w4-IsBalanced

abbrev bad : Exception
bad = Exception.permanent_job_error "bad"

-- The job has failed for good and is filed as a dead letter.
abbrev dead : World
dead = after (fail_job 130 4 bad FailureType.permanent "trace") w4

to_dead : Reach w0 dead
to_dead = next to_w4 (Step.fail 130 4 attempt bad FailureType.permanent "trace" attempt_runs refl)

abbrev failed : Job
failed = failed_job 130 "bad" job

replay_dead_letter-succeeds_example :
    ((replay_dead_letter 140 "v" 5 dead.db).0 ≡ ok (clone 6 140 "v" failed))
    × Replayed 140 5 dead.db (replay_dead_letter 140 "v" 5 dead.db).1 (clone 6 140 "v" failed)
unfolding run_all
replay_dead_letter-succeeds_example =
    replay_dead_letter-succeeds {w = dead} 140 "v" 5 _ failed to_dead refl refl refl refl

retry-waits_example :
    find_job 0
      (promote_ready_retries unlocked 3000129 100
        (fail_job 130 4 bad FailureType.transient "trace" w4.db).1).1
    ≡ some (retrying_job 130 3 "bad" job)
unfolding run_all
retry-waits_example =
    retry-waits w4.db 4 attempt attempt_runs refl w4-IsBalanced 130 bad FailureType.transient
      "trace" job 3 job_runs refl unlocked 3000129 100 (omega arith)
