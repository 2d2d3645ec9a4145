-- ===== src/Clients/Cancel.antt =====
-- `cancel_job` (jobs/services/cancellation.py) on every status.
use mt_jobs.Base.{ℕ, some, ◌≡◌, refl, arith}
use mt_jobs.Base.Table.{find, save, find-key, find-pk, find-save}
use mt_jobs.Models.Job.{Job, JobStatus}
use mt_jobs.Domain.Exceptions.{ok}
use mt_jobs.Store.Exec.{roll_back_ok}
use mt_jobs.Store.Db.{Db, find_job, job_pk}
use mt_jobs.Services.Cancellation.{
  cancel_job, cancel_in, cancelled_job, cancel_requested_job, touched_job,
}
use mt_jobs.Capacity.Balance.{IsBalanced}
use mt_jobs.Capacity.Release.{release_capacity-eq}
use mt_jobs.Capacity.Finish.{slot_state}

-- The status that a cancellation leaves.
abbrev pub cancelled_status : JobStatus → JobStatus
cancelled_status JobStatus.waiting = JobStatus.cancelled
cancelled_status JobStatus.retry_wait = JobStatus.cancelled
cancelled_status JobStatus.queued = JobStatus.cancelled
cancelled_status JobStatus.executing = JobStatus.cancel_requested
cancelled_status s = s

module _ (now i : ℕ) (d : Db) (j : Job) (here : find_job i d ≡ some j) (b : IsBalanced d) where
  saved : (y : Job) → y.id ≡ j.id → find job_pk i (save job_pk y d.jobs) ≡ some y
  saved y same = ground (
    arith,
    find-pk job_pk i d.jobs here,
    same,
    find-save job_pk i y j d.jobs (find-key job_pk i y.id d.jobs here same),
  )

  cancel_in-result :
      (s : JobStatus)
      → j.status ≡ s
      → (y : Job) × ((cancel_in now j s d).0 ≡ ok y)
        × (find_job i (cancel_in now j s d).1 ≡ some y)
        × (y.status ≡ cancelled_status s)
  unfolding cancel_in
  cancel_in-result JobStatus.succeeded e = (j, refl, here, e)
  cancel_in-result JobStatus.failed_final e = (j, refl, here, e)
  cancel_in-result JobStatus.cancelled e = (j, refl, here, e)
  cancel_in-result JobStatus.waiting e =
      (cancelled_job now j, refl, saved (cancelled_job now j) refl, refl)
  cancel_in-result JobStatus.retry_wait e =
      (cancelled_job now j, refl, saved (cancelled_job now j) refl, refl)
  cancel_in-result JobStatus.executing e =
      (cancel_requested_job now j, refl, saved (cancel_requested_job now j) refl, refl)
  cancel_in-result JobStatus.cancel_requested e =
      (touched_job now j, refl, saved (touched_job now j) refl, e)
  cancel_in-result JobStatus.queued e =
      let (s, f, _) = slot_state d i j here (ground arith) b in
      rw (release_capacity-eq now (cancelled_job now j) d s f)
        (cancelled_job now j, refl, saved (cancelled_job now j) refl, refl)

  -- In a balanced state, `cancel_job` on a job that exists raises nothing and returns the row as
  -- it then stands in the table: CANCELLED if the job was waiting, waiting for a retry or queued,
  -- CANCEL_REQUESTED if it was executing, and with its status unchanged else.
  pub cancel_job-result :
      (y : Job) × ((cancel_job now i d).0 ≡ ok y)
      × (find_job i (cancel_job now i d).1 ≡ some y)
      × (y.status ≡ cancelled_status j.status)
  unfolding cancel_job
  cancel_job-result =
      let (y, r, f, s) = cancel_in-result j.status refl in
      rw (here, roll_back_ok d (cancel_in now j j.status d) r) (y, r, f, s)
