-- ===== src/Services/Reconciliation.antt =====
-- jobs/services/reconciliation.py
use mt_jobs.Base.{
  ℕ, Bool, false, Option, none, some, List, [], ◌∷◌, ◌&&◌, ltb, if◌then◌else◌, filter, take, map,
}
use mt_jobs.Models.Job.{Job, JobStatus, is_status}
use mt_jobs.Models.Attempt.{JobAttempt, AttemptStatus, FailureType, is_running}
use mt_jobs.Models.Reservation.{JobExecutionReservation}
use mt_jobs.Store.Exec.{Exec, pure, gets, atomic, ◌>>=◌, ◌>>◌}
use mt_jobs.Store.Db.{Db, find_job, get_job, get_attempt, save_job, save_attempt}
use mt_jobs.Services.Execution.{release_capacity}
use mt_jobs.Services.Failure.{finalize_failure}
use mt_jobs.Services.SchedulerState.{refresh_scheduler_state}

-- `lease_expires_at__lt=now`: NULL is before nothing.
abbrev pub expires_before : Option ℕ → ℕ → Bool
expires_before none now = false
expires_before (some t) now = ltb t now

abbrev pub is_abandoned : ℕ → JobAttempt → Bool
is_abandoned now a = is_running a.status && expires_before a.lease_expires_at now

unfoldable pub expired_attempts : ℕ → ℕ → Db → List ℕ
expired_attempts now limit d =
    take limit (map (λ (a : JobAttempt). a.id) (filter (is_abandoned now) d.attempts))

abbrev pub abandoned_attempt : ℕ → JobAttempt → JobAttempt
abandoned_attempt now attempt = record attempt {
  status = AttemptStatus.abandoned;
  finished_at = some now;
  failure_type = some FailureType.infrastructure;
}

unfoldable pub reconcile_attempt : ℕ → ℕ → Exec Db (Unit {0})
reconcile_attempt now attempt_id = atomic (do
  attempt ← get_attempt attempt_id
  if is_running attempt.status
      then (do
        save_attempt (abandoned_attempt now attempt)
        finalize_failure now attempt.job FailureType.infrastructure "Worker lease expired")
      else pure tt)

abbrev pub requeued_job : ℕ → Job → Job
requeued_job now job = record job {
  status = JobStatus.waiting;
  ready_since = now;
  updated_at = now;
}

unfoldable pub recover_queued : ℕ → ℕ → Exec Db (Unit {0})
recover_queued now job_id = atomic (do
  job ← get_job job_id
  if is_status job.status JobStatus.queued
      then (do
        save_job (requeued_job now job)
        release_capacity now (requeued_job now job)
        refresh_scheduler_state now job.tenant)
      else pure tt)

-- `expires_at__lt=now, job__status=QUEUED`
abbrev pub job_is_queued : Option Job → Bool
job_is_queued none = false
job_is_queued (some j) = is_status j.status JobStatus.queued

abbrev pub is_stuck : ℕ → Db → JobExecutionReservation → Bool
is_stuck now d r = ltb r.expires_at now && job_is_queued (find_job r.job d)

unfoldable pub stuck_jobs : ℕ → ℕ → Db → List ℕ
stuck_jobs now limit d =
    map (λ (r : JobExecutionReservation). r.job)
      (take limit (filter (is_stuck now d) d.reservations))

-- `for x in xs: step(x)`
unfoldable pub for_each : (ℕ → Exec Db (Unit {0})) → List ℕ → Exec Db (Unit {0})
for_each step [] = pure tt
for_each step (x ∷ rest) = step x >> for_each step rest

unfoldable pub reconcile_queued : ℕ → ℕ → Exec Db (Unit {0})
unfolding stuck_jobs for_each
reconcile_queued now limit = do
  job_ids ← gets (stuck_jobs now limit)
  for_each (recover_queued now) job_ids

unfoldable pub reconcile_expired : ℕ → ℕ → Exec Db (Unit {0})
unfolding expired_attempts for_each reconcile_queued
reconcile_expired now limit = do
  attempt_ids ← gets (expired_attempts now limit)
  for_each (reconcile_attempt now) attempt_ids
  reconcile_queued now limit
