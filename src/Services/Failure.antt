-- ===== src/Services/Failure.antt =====
-- jobs/services/failure.py
use mt_jobs.Base.{ℕ, String, Bool, true, false, Option, none, some, ◌==◌, if◌then◌else◌}
use mt_jobs.Models.Job.{Job}
use mt_jobs.Models.Attempt.{FailureType}
use mt_jobs.Domain.Exceptions.{Exception, str}
use mt_jobs.Store.Exec.{Exec, atomic, ◌>>=◌, ◌>>◌}
use mt_jobs.Store.Db.{
  Db, uuid4, get_job, get_attempt, save_job, save_attempt, get_or_create_dead_letter,
}
use mt_jobs.Services.Execution.{
  retrying_job, failed_job, new_dead_letter, failed_attempt, release_capacity,
}

-- `RETRYABLE`
unfoldable pub retryable : FailureType → Bool
retryable FailureType.transient = true
retryable FailureType.infrastructure = true
retryable FailureType.timeout = true
retryable FailureType.unknown = true
retryable FailureType.permanent = false

-- `RETRY_DELAYS` of this module, in seconds
unfoldable pub backoff : ℕ → Option ℕ
backoff n = if n == 1 then some 3 else if n == 2 then some 5 else if n == 3 then some 10 else none

-- The delay, if `can_retry`.
unfoldable pub delay_of : FailureType → ℕ → Option ℕ
unfolding retryable backoff
delay_of failure_type attempt_count = if retryable failure_type then backoff attempt_count else none

unfoldable pub finalize : ℕ → FailureType → String → Job → Option ℕ → Exec Db (Unit {0})
finalize now failure_type message job (some delay) = do
  save_job (retrying_job now delay message job)
  release_capacity now (retrying_job now delay message job)
finalize now failure_type message job none = do
  id ← uuid4
  get_or_create_dead_letter (new_dead_letter id now failure_type message job)
  save_job (failed_job now message job)
  release_capacity now (failed_job now message job)

unfoldable pub finalize_failure : ℕ → ℕ → FailureType → String → Exec Db (Unit {0})
unfolding delay_of finalize
finalize_failure now job_id failure_type message = atomic (do
  job ← get_job job_id
  finalize now failure_type message job (delay_of failure_type job.attempt_count))

unfoldable pub fail_attempt : ℕ → ℕ → Exception → FailureType → Exec Db (Unit {0})
unfolding finalize_failure
fail_attempt now attempt_id exc failure_type = atomic (do
  attempt ← get_attempt attempt_id
  save_attempt (failed_attempt now failure_type (some (str exc)) attempt.traceback attempt)
  finalize_failure now attempt.job failure_type (str exc))
