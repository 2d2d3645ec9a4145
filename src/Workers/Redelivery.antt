-- ===== src/Workers/Redelivery.antt =====
-- A message that the broker delivers again calls `execute` (jobs/services/execution.py) once more.
use mt_jobs.Base.{ℕ, false, some, ◌≡◌, refl, any, Option-cases, inl, inr}
use mt_jobs.Models.Json.{Json}
use mt_jobs.Models.Job.{Job, JobStatus, is_status}
use mt_jobs.Domain.Exceptions.{Result, ok, err}
use mt_jobs.Store.Db.{Db, find_job, attempts_conflict}
use mt_jobs.Services.Execution.{Worker, execute, claim_job, retry_after, failure_type_of}
use mt_jobs.Capacity.Balance.{IsBalanced}
use mt_jobs.Workers.Runs.{answer, ended_job, claimed, attempt, claimed_db, execute-Ends}

-- A job that is not queued is not run.
execute-idle :
    (w : Worker) (i : ℕ) (d : Db) (j : Job)
    → find_job i d ≡ some j
    → is_status j.status JobStatus.queued ≡ false
    → execute w i d ≡ (ok tt, d)
unfolding execute claim_job
execute-idle w i d j h q = rw (h, q) refl

ended-not-queued :
    (now : ℕ) (j : Job) (r : Result Json)
    → is_status (ended_job now j r).status JobStatus.queued ≡ false
ended-not-queued now j (ok v) = refl
ended-not-queued now j (err e) =
    elim (Option-cases (retry_after (failure_type_of e) j.attempt_count)) [
      | inl h ↦ rw h refl
      | inr (delay, h) ↦ rw h refl
    ]

-- Under the same conditions, a second `execute` of the job right after the first, by any worker,
-- does nothing.
pub execute-once :
    (w : Worker) (i : ℕ) (d : Db) (j : Job)
    → find_job i d ≡ some j
    → j.status ≡ JobStatus.queued
    → any (attempts_conflict (attempt w i d j)) d.attempts ≡ false
    → IsBalanced d
    → (answer w (claimed w i d j) (attempt w i d j) (claimed_db w i d j)).1 ≡ claimed_db w i d j
    → (again : Worker) → let d' = (execute w i d).1 in execute again i d' ≡ (ok tt, d')
execute-once w i d j here queued fresh b quiet again =
    let (_, _, f) = execute-Ends w i d j here queued fresh b quiet in
    execute-idle again i (execute w i d).1 _ f (ended-not-queued w.finished_at (claimed w i d j) _)
