-- ===== src/Services/Retry.antt =====
-- jobs/services/retry.py. `locked` says which rows another transaction holds.
use mt_jobs.Base.{
  ℕ, Bool, not, List, [], ◌∷◌, ◌==◌, ◌&&◌, leb, if◌then◌else◌, filter, take, length, any,
}
use mt_jobs.Base.Sort.{order_by}
use mt_jobs.Models.Job.{Job, JobStatus, is_status}
use mt_jobs.Store.Exec.{Exec, pure, gets, atomic, ◌>>=◌, ◌>>◌}
use mt_jobs.Store.Db.{Db, save_job}
use mt_jobs.Services.SchedulerState.{available_before, refresh_scheduler_state}

abbrev pub is_elapsed : ℕ → Job → Bool
is_elapsed now j = is_status j.status JobStatus.retry_wait && leb j.available_at now

unfoldable pub elapsed : (ℕ → Bool) → ℕ → ℕ → List Job → List Job
elapsed locked now limit jobs =
    take limit
      (order_by available_before (filter (λ (j : Job). is_elapsed now j && not (locked j.id)) jobs))

abbrev pub promoted_job : ℕ → Job → Job
promoted_job now job = record job {
  status = JobStatus.waiting;
  ready_since = now;
  updated_at = now;
}

unfoldable pub promote_all : ℕ → List Job → Exec Db (Unit {0})
promote_all now [] = pure tt
promote_all now (job ∷ rest) = save_job (promoted_job now job) >> promote_all now rest

-- `tenant_ids`, the set of the jobs' tenants
unfoldable pub tenant_ids : List Job → List ℕ
tenant_ids [] = []
tenant_ids (job ∷ rest) =
    let ids = tenant_ids rest in if any (λ t. t == job.tenant) ids then ids else job.tenant ∷ ids

unfoldable pub refresh_all : ℕ → List ℕ → Exec Db (Unit {0})
refresh_all now [] = pure tt
refresh_all now (t ∷ rest) = refresh_scheduler_state now t >> refresh_all now rest

-- Returns the number of jobs promoted.
unfoldable pub promote_ready_retries : (ℕ → Bool) → ℕ → ℕ → Exec Db ℕ
unfolding elapsed promote_all tenant_ids refresh_all
promote_ready_retries locked now limit = atomic (do
  jobs ← gets (λ (d : Db). elapsed locked now limit d.jobs)
  promote_all now jobs
  refresh_all now (tenant_ids jobs)
  pure (length jobs))
