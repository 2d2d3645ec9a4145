-- ===== src/Views.antt =====
-- The calls of the services in jobs/views.py: a view takes the data that its serializer validated and
-- returns the row and the HTTP status.
use mt_jobs.Base.{ℕ, String, Option, none, some, List, ◌==◌, str_eq, if◌then◌else◌, filter}
use mt_jobs.Models.Job.{Job}
use mt_jobs.Models.Attempt.{JobAttempt}
use mt_jobs.Store.Exec.{Exec, pure, ◌>>=◌, ◌>>◌}
use mt_jobs.Store.Db.{Db}
use mt_jobs.Services.Submission.{Submission, submit_job}
use mt_jobs.Services.SchedulerState.{refresh_scheduler_state}
use mt_jobs.Services.Cancellation.{cancel_job}
use mt_jobs.Services.DeadLetter.{replay_dead_letter}

-- `a or b` on texts
unfoldable pub or_text : Option String → Option String → Option String
or_text none b = b
or_text (some a) b = if str_eq a "" then b else some a

-- The places of a request where a client may put its key.
pub record Request : Type 0 where
  pub idempotency_key_header : Option String
  pub x_idempotency_key_header : Option String
  pub idempotency_key_field : Option String

unfoldable pub request_key : Request → Option String
unfolding or_text
request_key r =
    or_text (or_text r.idempotency_key_header r.x_idempotency_key_header) r.idempotency_key_field

-- `idempotency_key` is read-only in the serializer, so the validated data has none.
unfoldable pub with_key : Request → Submission → Submission
unfolding request_key
with_key r job_data = record job_data { idempotency_key = request_key r }

-- `JobListCreateView.create`
unfoldable pub create : ℕ → String → Request → Submission → Exec Db (Job × ℕ)
unfolding with_key
create now generated request job_data =
    submit_job now generated (with_key request job_data) >>= λ r.
    if r.1 then refresh_scheduler_state now r.0.tenant >> pure (r.0, 201) else pure (r.0, 200)

-- `JobCancelView.post`
unfoldable pub cancel : ℕ → ℕ → Exec Db (Job × ℕ)
cancel now pk = cancel_job now pk >>= λ job. pure (job, 200)

-- `JobAttemptListView.get_queryset`
unfoldable pub attempts_of : ℕ → Db → List JobAttempt
attempts_of job_id d = filter (λ (a : JobAttempt). a.job == job_id) d.attempts

-- `DeadLetterReplayView.post`
unfoldable pub replay : ℕ → String → ℕ → Exec Db (Job × ℕ)
replay now generated pk = replay_dead_letter now generated pk >>= λ job. pure (job, 201)
