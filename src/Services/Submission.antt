-- ===== src/Services/Submission.antt =====
-- jobs/services/submission.py. `generated` is the text of the UUID that `uuid.uuid4()` returned.
use mt_jobs.Base.{
  ℕ, String, Bool, true, false, Option, none, some, List, ◌==◌, ◌&&◌, str_eq, if◌then◌else◌, filter,
  head?,
}
use mt_jobs.Models.Json.{Json, end}
use mt_jobs.Models.Job.{Job, JobStatus}
use mt_jobs.Domain.Exceptions.{Exception}
use mt_jobs.Store.Exec.{Exec, pure, raise, lift, gets, atomic, try_catch, ◌>>=◌}
use mt_jobs.Store.Db.{Db, uuid4, found, same_key, create_job}

-- The keyword arguments of the call.
pub record Submission : Type 0 where
  pub tenant : ℕ
  pub job_type : String
  pub payload : Option Json
  pub priority : ℕ
  pub idempotency_key : Option String
  pub available_at : Option ℕ

-- `payload if payload is not None else {}`
abbrev pub payload_or_empty : Option Json → Json
payload_or_empty none = Json.obj end
payload_or_empty (some p) = p

-- `available_at or timezone.now()`
abbrev pub or_now : ℕ → Option ℕ → ℕ
or_now now none = now
or_now now (some t) = t

-- `if not idempotency_key: idempotency_key = str(uuid.uuid4())`; the empty text is no key.
unfoldable pub key_or_generated : String → Option String → String
key_or_generated generated none = generated
key_or_generated generated (some k) = if str_eq k "" then generated else k

abbrev pub has_key : ℕ → String → Job → Bool
has_key tenant key j = j.tenant == tenant && same_key j.idempotency_key (some key)

-- `Job.objects.filter(tenant=…, idempotency_key=…).first()`
unfoldable pub find_duplicate : ℕ → String → List Job → Option Job
find_duplicate tenant key jobs = head? (filter (has_key tenant key) jobs)

-- A row with the columns that a call of `Job.objects.create` names, and the models' defaults.
abbrev pub new_job : ℕ → ℕ → ℕ → String → Json → ℕ → String → ℕ → Job
new_job id now tenant job_type payload priority key available_at = record {
  id = id;
  tenant = tenant;
  job_type = job_type;
  status = JobStatus.waiting;
  priority = priority;
  payload = payload;
  result = none;
  idempotency_key = some key;
  available_at = available_at;
  ready_since = available_at;
  attempt_count = 0;
  last_error_code = none;
  last_error_message = none;
  queued_at = none;
  started_at = none;
  completed_at = none;
  cancelled_at = none;
  created_at = now;
  updated_at = now;
}

abbrev pub submitted : ℕ → ℕ → Submission → String → Job
submitted id now s key =
    new_job id now s.tenant s.job_type (payload_or_empty s.payload) s.priority key
      (or_now now s.available_at)

-- The race of two requests: the row that the other one wrote.
unfoldable pub existing_on_conflict : ℕ → String → Exception → Exec Db (Job × Bool)
existing_on_conflict tenant key (Exception.integrity_error c) = do
  jobs ← gets (λ (d : Db). d.jobs)
  job ← lift (found "Job" (find_duplicate tenant key jobs))
  pure (job, false)
existing_on_conflict tenant key e = raise e

unfoldable pub create_or_existing : ℕ → Submission → String → Exec Db (Job × Bool)
unfolding existing_on_conflict
create_or_existing now s key =
    try_catch (atomic (do id ← uuid4; job ← create_job (submitted id now s key); pure (job, true)))
      (existing_on_conflict s.tenant key)

unfoldable pub existing_or_created : ℕ → Submission → String → Option Job → Exec Db (Job × Bool)
unfolding create_or_existing
existing_or_created now s key (some job) = pure (job, false)
existing_or_created now s key none = create_or_existing now s key

unfoldable pub submit_job : ℕ → String → Submission → Exec Db (Job × Bool)
unfolding existing_or_created
submit_job now generated s = atomic (do
  let key = key_or_generated generated s.idempotency_key
  existing ← gets (λ (d : Db). find_duplicate s.tenant key d.jobs)
  existing_or_created now s key existing)
