-- ===== src/Tests/Scenario.antt =====
-- One tenant with a limit of one job, and the life of its first job.
use mt_jobs.Base.{
  ℕ, String, Bool, true, false, none, some, [], ◌∷◌, ◌≡◌, refl, filter, any, take, head?, count,
  reject, update,
}
use mt_jobs.Base.Table.{find, save}
use mt_jobs.Base.Sort.{insert_sorted, order_by}
use mt_jobs.Models.Json.{Json, end, get_field, truthy, truthy?}
use mt_jobs.Models.Job.{Job, JobStatus}
use mt_jobs.Models.Attempt.{JobAttempt}
use mt_jobs.Models.SchedulerState.{TenantSchedulerState}
use mt_jobs.Models.Tenant.{Tenant}
use mt_jobs.Domain.Exceptions.{str}
use mt_jobs.Domain.Payload.{payload_get}
use mt_jobs.Store.Columns.{is_storable, arguments_fit, key_fits, fits, has_nul, json_has_nul}
use mt_jobs.Store.Db.{find_job, find_attempt, find_state, with_letter}
use mt_jobs.Services.Outbox.{World, Broker, publish_event, send_event}
use mt_jobs.Services.SchedulerState.{
  refresh_scheduler_state, first_ready, earliest_waiting, new_state,
}
use mt_jobs.Services.Submission.{
  Submission, submit_job, find_duplicate, key_or_generated, existing_or_created, create_or_existing,
  existing_on_conflict, new_job,
}
use mt_jobs.Services.Overlap.{acquire_overlap, release_overlaps}
use mt_jobs.Services.Dispatcher.{
  dispatch_next, dispatch_first, candidates, reserve_job, acquire_if_asked,
}
use mt_jobs.Services.Execution.{
  claim_job, start_attempt, Worker, complete_job, new_attempt, release_capacity, fail_job, settle,
  retry_after, retry_delays, is_retryable,
}
use mt_jobs.Services.Failure.{
  fail_attempt, finalize_failure, finalize, delay_of, retryable, backoff,
}
use mt_jobs.Handlers.Simulated.{registry}
use mt_jobs.Services.Retry.{promote_ready_retries}
use mt_jobs.Services.Reconciliation.{reconcile_attempt}
use mt_jobs.Capacity.Balance.{IsBalanced}
use mt_jobs.System.Steps.{Step, Reach, here, next, after}
use mt_jobs.System.Limit.{start, empty-IsBalanced, Reach-IsBalanced}

-- What a run computes.
unfoldable pub run_all : Bool
unfolding find save filter any take head? count reject update insert_sorted order_by get_field
    truthy truthy? str payload_get with_letter send_event publish_event refresh_scheduler_state
    first_ready earliest_waiting submit_job find_duplicate key_or_generated existing_or_created
    create_or_existing existing_on_conflict acquire_overlap release_overlaps dispatch_next
    dispatch_first candidates reserve_job acquire_if_asked claim_job start_attempt complete_job
    release_capacity fail_job settle retry_after retry_delays is_retryable fail_attempt
    finalize_failure finalize delay_of retryable backoff promote_ready_retries reconcile_attempt
    is_storable arguments_fit key_fits fits has_nul json_has_nul
run_all = true

abbrev pub acme : Tenant
acme = record {
  id = 7;
  name = "acme";
  is_active = true;
  max_concurrent_jobs = 1;
  created_at = 0;
  updated_at = 0;
}

abbrev pub report : Submission
report = record {
  tenant = 7;
  job_type = "REPORTS";
  payload = none;
  priority = 3;
  idempotency_key = some "first";
  available_at = none;
}

abbrev pub to_text : Json → String
to_text (Json.str s) = s
to_text v = "other"

abbrev pub unlocked : ℕ → Bool
unlocked i = false

abbrev pub up : Broker
up i = none

abbrev pub w0 : World
w0 = start (acme ∷ [])

-- The job waits.
abbrev pub w1 : World
w1 = after (submit_job 100 "u" report) w0

abbrev pub w2 : World
w2 = after (refresh_scheduler_state 100 7) w1

-- The job is queued.
abbrev pub w3 : World
w3 = after (dispatch_next to_text unlocked 110 7) w2

-- The job runs.
abbrev pub w4 : World
w4 = after (claim_job 120 "worker" 0) w3

-- The job, the attempt and the counter while the job runs.
abbrev pub job : Job
job = record (new_job 0 100 7 "REPORTS" (Json.obj end) 3 "first" 100) {
  status = JobStatus.executing;
  attempt_count = 1;
  queued_at = some 110;
  started_at = some 120;
  updated_at = 120;
}

abbrev pub attempt : JobAttempt
attempt = new_attempt 4 120 "worker" job

abbrev pub counter : TenantSchedulerState
counter = record (new_state 100 7) {
  active_reservations = 1;
  has_ready_work = true;
  highest_ready_priority = some 3;
  next_ready_at = some 100;
  last_dispatched_at = some 110;
  updated_at = 110;
}

-- The job has succeeded.
abbrev pub w5 : World
w5 = after (complete_job 130 4 (Json.bool true)) w4

pub job_runs : find_job 0 w4.db ≡ some job
unfolding run_all
job_runs = refl

pub attempt_runs : find_attempt 4 w4.db ≡ some attempt
unfolding run_all
attempt_runs = refl

pub counter_stands : find_state 7 w4.db ≡ some counter
unfolding run_all
counter_stands = refl

pub to_w1 : Reach w0 w1
to_w1 = next here (Step.submit 100 "u" report)

pub to_w3 : Reach w0 w3
to_w3 = next (next to_w1 (Step.refresh 100 7)) (Step.dispatch to_text unlocked 110 7)

pub to_w4 : Reach w0 w4
to_w4 = next to_w3 (Step.claim 120 "worker" 0)

pub w4_to_w5 : Reach w4 w5
w4_to_w5 = next here (Step.complete 130 4 attempt (Json.bool true) attempt_runs refl)

pub w4-IsBalanced : IsBalanced w4.db
w4-IsBalanced = Reach-IsBalanced (empty-IsBalanced (acme ∷ [])) to_w4

pub w5-IsBalanced : IsBalanced w5.db
w5-IsBalanced = Reach-IsBalanced w4-IsBalanced w4_to_w5

abbrev pub waiting_job : Job
waiting_job = new_job 0 100 7 "REPORTS" (Json.obj end) 3 "first" 100

pub w3-IsBalanced : IsBalanced w3.db
w3-IsBalanced = Reach-IsBalanced (empty-IsBalanced (acme ∷ [])) to_w3

abbrev pub worker : Worker
worker = record {
  registry = registry;
  hostname = "worker";
  format_exc = λ e. "trace";
  claimed_at = 120;
  finished_at = 130;
}
