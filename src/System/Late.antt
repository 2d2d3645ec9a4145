-- ===== src/System/Late.antt =====
-- A worker that comes back late: the reaper has given its attempt up, and `complete_job` and
-- `fail_job` (jobs/services/execution.py) look at the status of neither attempt nor job.
use mt_jobs.Base.{ℕ, String, false, some, ◌≡◌, ◌+◌, ◌<◌, refl, count, arith}
use mt_jobs.Base.Table.{save, find-pk, find-key, find-save, count-reject}
use mt_jobs.Models.Json.{Json}
use mt_jobs.Models.Job.{Job}
use mt_jobs.Models.Attempt.{JobAttempt, FailureType}
use mt_jobs.Models.SchedulerState.{TenantSchedulerState}
use mt_jobs.Domain.Exceptions.{Exception, ok, str}
use mt_jobs.Store.Db.{Db, find_job, find_attempt, find_state, job_pk, attempt_pk}
use mt_jobs.Services.Execution.{
  complete_job, fail_job, settle, retry_after, succeeded_job, succeeded_attempt, failed_attempt,
  retrying_job,
}
use mt_jobs.Capacity.Balance.{IsBalanced, holds, active_of, of_tenant}
use mt_jobs.Capacity.Release.{reserved_by, released, release_capacity-eq, active_of-release_state}

module _ (d : Db) (i : ℕ) (a : JobAttempt) (j : Job) (s : TenantSchedulerState)
    (here : find_attempt i d ≡ some a) (mine : find_job a.job d ≡ some j)
    (counter : find_state j.tenant d ≡ some s) where
  complete_job-eq :
      (now : ℕ) (result : Json)
      → complete_job now i result d ≡ (
        ok tt,
        released now (succeeded_job now result j) s (record d {
          attempts = save attempt_pk (succeeded_attempt now a) d.attempts;
          jobs = save job_pk (succeeded_job now result j) d.jobs;
        }),
      )
  unfolding complete_job
  complete_job-eq now result =
      let j' = succeeded_job now result j in
      rw
        (
          here,
          mine,
          release_capacity-eq now j'
              (record d {
                attempts = save attempt_pk (succeeded_attempt now a) d.attempts;
                jobs = save job_pk j' d.jobs;
              })
              s counter,
        )
        refl

  -- In a balanced state where the job of an attempt holds no slot and the counter of its tenant is
  -- above 0, `complete_job` on that attempt leaves the counter one below the number of
  -- reservations, so the state is balanced no more.
  pub late_complete-unbalanced :
      (now : ℕ) (result : Json)
      → holds j.status ≡ false
      → 0 < s.active_reservations
      → IsBalanced d
      → let d' = (complete_job now i result d).1 in
        (active_of (find_state j.tenant d') + 1 ≡ count (of_tenant j.tenant) d'.reservations)
        × (¬ IsBalanced d')
  late_complete-unbalanced now result h p b =
      rw (complete_job-eq now result) (gap, λ b'. omega (arith, gap, b'.counted j.tenant))
    where
      d' : Db
      d' = released now (succeeded_job now result j) s (record d {
        attempts = save attempt_pk (succeeded_attempt now a) d.attempts;
        jobs = save job_pk (succeeded_job now result j) d.jobs;
      })

      gap : active_of (find_state j.tenant d') + 1 ≡ count (of_tenant j.tenant) d'.reservations
      gap = ground (
        arith,
        active_of-release_state now j.tenant j.tenant s d.scheduler_states counter,
        counter,
        b.counted j.tenant,
        b.owned j.id j.tenant,
        find-key job_pk a.job j.id d.jobs mine refl,
        count-reject (of_tenant j.tenant) (reserved_by j.id) d.reservations,
      )

  -- Where the attempt, its job and the scheduler state of the tenant exist and the failure may be
  -- retried, `fail_job` sends the job to RETRY_WAIT whatever its status is, also when it has
  -- succeeded.
  pub late_fail-revives :
      (now delay : ℕ) (exc : Exception) (t : FailureType) (traceback : String)
      → retry_after t j.attempt_count ≡ some delay
      → find_job a.job (fail_job now i exc t traceback d).1
        ≡ some (retrying_job now delay (str exc) j)
  unfolding fail_job settle
  late_fail-revives now delay exc t traceback e =
      let j' = retrying_job now delay (str exc) j in
      let at = find-key job_pk a.job j.id d.jobs mine refl in
      rw
        (
          here,
          mine,
          e,
          release_capacity-eq now j'
              (record d {
                attempts =
                    save attempt_pk (failed_attempt now t (some (str exc)) (some traceback) a)
                      d.attempts;
                jobs = save job_pk j' d.jobs;
              })
              s counter,
        )
        (ground (arith, find-pk job_pk a.job d.jobs mine, find-save job_pk a.job j' j d.jobs at))
