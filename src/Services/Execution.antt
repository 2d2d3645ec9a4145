-- ===== src/Services/Execution.antt =====
-- jobs/services/execution.py. `hostname` is `socket.gethostname()`, `traceback` the text of
-- `traceback.format_exc()`.
use mt_jobs.Base.{
  ℕ, String, Bool, true, false, Option, none, some, ◌+◌, ◌-◌, ◌==◌, if◌then◌else◌, reject,
}
use mt_jobs.Models.Json.{Json, end}
use mt_jobs.Models.Job.{Job, JobStatus, is_status}
use mt_jobs.Models.Attempt.{JobAttempt, AttemptStatus, FailureType}
use mt_jobs.Models.DeadLetter.{DeadLetterJob, DeadLetterReason, DeadLetterStatus}
use mt_jobs.Models.Reservation.{JobExecutionReservation}
use mt_jobs.Models.SchedulerState.{TenantSchedulerState}
use mt_jobs.Domain.Exceptions.{Exception, str}
use mt_jobs.Store.Exec.{Exec, pure, lift, gets, modify, atomic, try_catch, ◌>>=◌, ◌>>◌}
use mt_jobs.Store.Db.{
  Db, uuid4, find_job, get_job, get_attempt, get_state, save_job, save_attempt, save_state,
  create_attempt, get_or_create_dead_letter,
}
use mt_jobs.Services.Overlap.{minutes, seconds, release_overlaps}
use mt_jobs.Handlers.Registry.{Registry, get_handler}

-- `RETRY_DELAYS`, in seconds
unfoldable pub retry_delays : ℕ → Option ℕ
retry_delays n =
    if n == 1 then some 3 else if n == 2 then some 5 else if n == 3 then some 10 else none

-- The failure types that `fail_job` retries.
unfoldable pub is_retryable : FailureType → Bool
is_retryable FailureType.transient = true
is_retryable FailureType.infrastructure = true
is_retryable FailureType.timeout = true
is_retryable FailureType.unknown = true
is_retryable FailureType.permanent = false

unfoldable pub retry_delay : Job → ℕ
unfolding retry_delays
retry_delay job = elim (retry_delays job.attempt_count) [ some delay ↦ delay | none ↦ 10 ]

abbrev pub released_state : ℕ → TenantSchedulerState → TenantSchedulerState
released_state now state = record state {
  active_reservations = state.active_reservations - 1;
  updated_at = now;
}

unfoldable pub release_capacity : ℕ → Job → Exec Db (Unit {0})
unfolding release_overlaps
release_capacity now job = do
  modify (λ d. record d {
    reservations = reject (λ (r : JobExecutionReservation). r.job == job.id) d.reservations;
  })
  release_overlaps job
  state ← get_state job.tenant
  if state.active_reservations == 0 then pure tt else save_state (released_state now state)

abbrev pub or_else : Option ℕ → ℕ → Option ℕ
or_else none now = some now
or_else (some t) now = some t

abbrev pub executing_job : ℕ → Job → Job
executing_job now job = record job {
  attempt_count = job.attempt_count + 1;
  status = JobStatus.executing;
  started_at = or_else job.started_at now;
  updated_at = now;
}

abbrev pub new_attempt : ℕ → ℕ → String → Job → JobAttempt
new_attempt id now hostname job = record {
  id = id;
  job = job.id;
  attempt_number = job.attempt_count;
  status = AttemptStatus.running;
  worker_id = some hostname;
  failure_type = none;
  error_code = none;
  error_message = none;
  traceback = none;
  started_at = now;
  finished_at = none;
  heartbeat_at = some now;
  lease_expires_at = some (now + minutes 5);
  created_at = now;
}

-- The attempt's `job` is the object that it was created with, so both come back.
unfoldable pub start_attempt : ℕ → String → Job → Exec Db (Option (JobAttempt × Job))
start_attempt now hostname job = do
  save_job (executing_job now job)
  id ← uuid4
  attempt ← create_attempt (new_attempt id now hostname (executing_job now job))
  pure (some (attempt, executing_job now job))

unfoldable pub claim_job : ℕ → String → ℕ → Exec Db (Option (JobAttempt × Job))
unfolding start_attempt
claim_job now hostname job_id = atomic (do
  job ← gets (find_job job_id)
  elim job [
    | none ↦ pure none
    | some j ↦
        if is_status j.status JobStatus.queued then start_attempt now hostname j else pure none
  ])

abbrev pub succeeded_attempt : ℕ → JobAttempt → JobAttempt
succeeded_attempt now attempt = record attempt {
  status = AttemptStatus.succeeded;
  finished_at = some now;
}

abbrev pub succeeded_job : ℕ → Json → Job → Job
succeeded_job now result job = record job {
  status = JobStatus.succeeded;
  result = some result;
  completed_at = some now;
  updated_at = now;
}

unfoldable pub complete_job : ℕ → ℕ → Json → Exec Db (Unit {0})
complete_job now attempt_id result = atomic (do
  attempt ← get_attempt attempt_id
  job ← get_job attempt.job
  save_attempt (succeeded_attempt now attempt)
  save_job (succeeded_job now result job)
  release_capacity now (succeeded_job now result job))

abbrev pub failed_attempt :
    ℕ → FailureType → Option String → Option String → JobAttempt → JobAttempt
failed_attempt now failure_type message traceback attempt = record attempt {
  status = AttemptStatus.failed;
  failure_type = some failure_type;
  error_message = message;
  traceback = traceback;
  finished_at = some now;
}

-- The delay of the next retry, if there is one.
unfoldable pub retry_after : FailureType → ℕ → Option ℕ
unfolding is_retryable retry_delays
retry_after failure_type attempt_count =
    if is_retryable failure_type then retry_delays attempt_count else none

abbrev pub retrying_job : ℕ → ℕ → String → Job → Job
retrying_job now delay message job = record job {
  status = JobStatus.retry_wait;
  available_at = now + seconds delay;
  ready_since = now + seconds delay;
  last_error_message = some message;
  updated_at = now;
}

abbrev pub failed_job : ℕ → String → Job → Job
failed_job now message job = record job {
  status = JobStatus.failed_final;
  completed_at = some now;
  last_error_message = some message;
  updated_at = now;
}

abbrev pub dead_letter_reason : FailureType → DeadLetterReason
dead_letter_reason FailureType.permanent = DeadLetterReason.permanent_failure
dead_letter_reason _ = DeadLetterReason.retries_exhausted

abbrev pub new_dead_letter : ℕ → ℕ → FailureType → String → Job → DeadLetterJob
new_dead_letter id now failure_type message job = record {
  id = id;
  job = job.id;
  tenant = job.tenant;
  reason = dead_letter_reason failure_type;
  status = DeadLetterStatus.opened;
  error_code = none;
  error_message = some message;
  last_attempt_number = some job.attempt_count;
  metadata = Json.obj end;
  replayed_job = none;
  created_at = now;
  replayed_at = none;
  dismissed_at = none;
}

-- The branch on `can_retry`, up to `job.save()`.
unfoldable pub settle : ℕ → FailureType → String → Job → Option ℕ → Exec Db (Unit {0})
settle now failure_type message job (some delay) = do
  save_job (retrying_job now delay message job)
  release_capacity now (retrying_job now delay message job)
settle now failure_type message job none = do
  id ← uuid4
  get_or_create_dead_letter (new_dead_letter id now failure_type message job)
  save_job (failed_job now message job)
  release_capacity now (failed_job now message job)

unfoldable pub fail_job : ℕ → ℕ → Exception → FailureType → String → Exec Db (Unit {0})
unfolding retry_after settle
fail_job now attempt_id exc failure_type traceback = atomic (do
  attempt ← get_attempt attempt_id
  job ← get_job attempt.job
  save_attempt (failed_attempt now failure_type (some (str exc)) (some traceback) attempt)
  settle now failure_type (str exc) job (retry_after failure_type job.attempt_count))

-- The `except` clauses of `execute`.
unfoldable pub failure_type_of : Exception → FailureType
failure_type_of (Exception.retryable_job_error m) = FailureType.transient
failure_type_of (Exception.permanent_job_error m) = FailureType.permanent
failure_type_of _ = FailureType.unknown

-- What a run of the worker finds outside the database: the registry of handlers, the name of its
-- host, the text of a traceback, and the clock at the claim and at the end.
pub record Worker : Type 0 where
  pub registry : Registry
  pub hostname : String
  pub format_exc : Exception → String
  pub claimed_at : ℕ
  pub finished_at : ℕ

unfoldable pub run_attempt : Worker → JobAttempt × Job → Exec Db (Unit {0})
unfolding failure_type_of
run_attempt w (attempt, job) =
    try_catch
      (do
        handler ← lift (get_handler w.registry job.job_type)
        result ← handler job.payload (record { job = job; attempt = attempt })
        complete_job w.finished_at attempt.id result)
      (λ exc. fail_job w.finished_at attempt.id exc (failure_type_of exc) (w.format_exc exc))

unfoldable pub execute : Worker → ℕ → Exec Db (Unit {0})
unfolding run_attempt
execute w job_id = do
  claimed ← claim_job w.claimed_at w.hostname job_id
  elim claimed [ none ↦ pure tt | some c ↦ run_attempt w c ]
