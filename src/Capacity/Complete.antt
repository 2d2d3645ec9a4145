-- ===== src/Capacity/Complete.antt =====
-- `complete_job` on an attempt that runs (jobs/services/execution.py).
use mt_jobs.Base.{ℕ, true, some, ◌≡◌, refl, arith}
use mt_jobs.Base.Table.{save, find-save}
use mt_jobs.Models.Json.{Json}
use mt_jobs.Models.Job.{Job}
use mt_jobs.Models.Attempt.{JobAttempt, is_running}
use mt_jobs.Domain.Exceptions.{ok}
use mt_jobs.Store.Db.{Db, find_job, find_attempt, job_pk, attempt_pk}
use mt_jobs.Services.Execution.{complete_job, succeeded_attempt, succeeded_job}
use mt_jobs.Capacity.Balance.{IsBalanced}
use mt_jobs.Capacity.Release.{released}
use mt_jobs.Capacity.Attempts.{attempt_job, attempt_ends}
use mt_jobs.Capacity.Finish.{release_succeeds}

module _ (d : Db) (i : ℕ) (a : JobAttempt) (here : find_attempt i d ≡ some a)
    (live : is_running a.status ≡ true) (b : IsBalanced d) where
  -- In a balanced state, `complete_job` on a running attempt raises nothing, leaves the state
  -- balanced, and its job is SUCCEEDED with the result.
  pub complete_job-succeeds :
      (now : ℕ) (result : Json)
      → (d' : Db) × (complete_job now i result d ≡ (ok tt, d'))
        × IsBalanced d'
        × ((j : Job) × (find_job a.job d ≡ some j)
            × (find_job a.job d' ≡ some (succeeded_job now result j)))
  unfolding complete_job
  complete_job-succeeds now result =
      let (j, e, self, key, w, h) = attempt_job d i a here live b in
      let mid : Db = record d {
        attempts = save attempt_pk (succeeded_attempt now a) d.attempts;
        jobs = save job_pk (succeeded_job now result j) d.jobs;
      } in
      let (s, run, bal) =
        release_succeeds now d mid j (succeeded_job now result j) self refl h refl refl refl refl
          refl refl
          (λ k. rw key (attempt_ends d i a here live b (succeeded_attempt now a) refl refl refl k))
          b in
      (
        released now (succeeded_job now result j) s mid,
        rw (here, e, run) refl,
        bal,
        (
          j,
          e,
          ground (arith, key, find-save job_pk a.job (succeeded_job now result j) j d.jobs self),
        ),
      )
