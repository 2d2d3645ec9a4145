-- ===== src/Services/Cancellation.antt =====
-- jobs/services/cancellation.py
use mt_jobs.Base.{ℕ, some}
use mt_jobs.Models.Job.{Job, JobStatus}
use mt_jobs.Store.Exec.{Exec, pure, atomic, ◌>>=◌, ◌>>◌}
use mt_jobs.Store.Db.{Db, get_job, save_job}
use mt_jobs.Services.Execution.{release_capacity}

abbrev pub cancelled_job : ℕ → Job → Job
cancelled_job now job = record job {
  status = JobStatus.cancelled;
  cancelled_at = some now;
  updated_at = now;
}

abbrev pub cancel_requested_job : ℕ → Job → Job
cancel_requested_job now job = record job { status = JobStatus.cancel_requested; updated_at = now }

abbrev pub touched_job : ℕ → Job → Job
touched_job now job = record job { updated_at = now }

-- The branches on the status of the job; a status that no branch names is saved as it is.
unfoldable pub cancel_in : ℕ → Job → JobStatus → Exec Db Job
cancel_in now job JobStatus.succeeded = pure job
cancel_in now job JobStatus.failed_final = pure job
cancel_in now job JobStatus.cancelled = pure job
cancel_in now job JobStatus.waiting = do
  save_job (cancelled_job now job)
  pure (cancelled_job now job)
cancel_in now job JobStatus.retry_wait = do
  save_job (cancelled_job now job)
  pure (cancelled_job now job)
cancel_in now job JobStatus.queued = do
  release_capacity now (cancelled_job now job)
  save_job (cancelled_job now job)
  pure (cancelled_job now job)
cancel_in now job JobStatus.executing = do
  save_job (cancel_requested_job now job)
  pure (cancel_requested_job now job)
cancel_in now job JobStatus.cancel_requested = do
  save_job (touched_job now job)
  pure (touched_job now job)

unfoldable pub cancel_job : ℕ → ℕ → Exec Db Job
unfolding cancel_in
cancel_job now job_id = atomic (do job ← get_job job_id; cancel_in now job job.status)
