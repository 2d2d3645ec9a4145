-- ===== src/Scheduling/Backoff.antt =====
-- The delay of a retry: `fail_job` (jobs/services/execution.py) and `promote_ready_retries`
-- (jobs/services/retry.py).
use mt_jobs.Base.{
  ℕ, String, Bool, true, false, not, some, List, [], ◌∷◌, ◌≡◌, ◌≢◌, ◌&&◌, ◌<◌, ◌+◌, All, arith,
  length, ◌∙◌,
}
use mt_jobs.Base.Table.{save, IsKeyed, IsKeyed-found, All-filter, All-take, All-map}
use mt_jobs.Base.Keys.{find-save_other}
use mt_jobs.Base.Sort.{All-order_by}
use mt_jobs.Models.Job.{Job}
use mt_jobs.Models.Attempt.{JobAttempt, FailureType, is_running}
use mt_jobs.Domain.Exceptions.{Exception, str}
use mt_jobs.Store.Exec.{Exec, pure, roll_back-keeps, >>=-keeps, ◌>>◌}
use mt_jobs.Store.Db.{Db, find_job, find_attempt, job_pk}
use mt_jobs.Services.Overlap.{seconds}
use mt_jobs.Services.SchedulerState.{available_before}
use mt_jobs.Services.Execution.{fail_job, retry_after, retrying_job}
use mt_jobs.Services.Retry.{
  promote_ready_retries, promote_all, refresh_all, tenant_ids, elapsed, is_elapsed, promoted_job,
}
use mt_jobs.Capacity.Balance.{IsBalanced}
use mt_jobs.Capacity.Refresh.{refresh-eq}
use mt_jobs.Capacity.Fail.{fail_job-Settled}

module _ (i : ℕ) (j : Job) where
  -- The job stands as it is.
  abbrev Stands : Db → Type 0
  Stands d = find_job i d ≡ some j

  promote_all-Stands :
      (now : ℕ) (jobs : List Job) (d : Db)
      → All (λ x. x.id ≢ i) jobs
      → Stands d
      → Stands (promote_all now jobs d).1
  unfolding promote_all
  promote_all-Stands now [] d a h = h
  promote_all-Stands now (x ∷ rest) d (n, a) h =
      promote_all-Stands now rest (record d { jobs = save job_pk (promoted_job now x) d.jobs }) a
        (find-save_other job_pk i (promoted_job now x) d.jobs (ground arith) ∙ h)

  refresh_all-Stands : (now : ℕ) (ts : List ℕ) (d : Db) → Stands d → Stands (refresh_all now ts d).1
  unfolding refresh_all
  refresh_all-Stands now [] d h = h
  refresh_all-Stands now (t ∷ ts) d h = rw (refresh-eq now t d) (refresh_all-Stands now ts _ h)

  -- The query picks no job whose delay has not elapsed.
  elapsed-others :
      (locked : ℕ → Bool) (now limit : ℕ) (d : Db)
      → IsKeyed job_pk d.jobs
      → Stands d
      → is_elapsed now j ≡ false
      → All (λ x. x.id ≢ i) (elapsed locked now limit d.jobs)
  unfolding elapsed
  elapsed-others locked now limit d keyed h early =
      All-take (λ x. x.id ≢ i) limit _
        (All-order_by available_before (λ x. x.id ≢ i) _
          (All-map _ (λ x. x.id ≢ i) _ apart
            (All-filter (λ x. find_job x.id d ≡ some x) (λ x. is_elapsed now x && not (locked x.id))
              d.jobs (IsKeyed-found job_pk d.jobs keyed))))
    where
      apart :
          (x : Job)
          → (find_job x.id d ≡ some x) × ((is_elapsed now x && not (locked x.id)) ≡ true)
          → x.id ≢ i
      apart x (e, p) q =
          let same : x ≡ j = cc (e, h, q) in
          let early' = rw (← same) at early in ground (arith, p, early')

  promote_ready_retries-Stands :
      (locked : ℕ → Bool) (now limit : ℕ) (d : Db)
      → IsKeyed job_pk d.jobs
      → Stands d
      → is_elapsed now j ≡ false
      → Stands (promote_ready_retries locked now limit d).1
  unfolding promote_ready_retries
  promote_ready_retries-Stands locked now limit d keyed h early =
      let js = elapsed locked now limit d.jobs in
      let finish : Exec Db ℕ = refresh_all now (tenant_ids js) >> pure (length js) in
      let body : Exec Db ℕ = promote_all now js >> finish in
      roll_back-keeps Stands d (body d) h (
        >>=-keeps Stands (promote_all now js) (λ _. finish) d
          (promote_all-Stands now js d (elapsed-others locked now limit d keyed h early) h)
          (λ _ e s.
            >>=-keeps Stands (refresh_all now (tenant_ids js)) (λ _. pure (length js)) e
              (refresh_all-Stands now (tenant_ids js) e s) (λ _ _ t. t)))

-- In a balanced state, after a `fail_job` on a running attempt that grants a retry after a delay,
-- a run of `promote_ready_retries` before that delay has elapsed leaves the job as it is, waiting
-- for the retry.
pub retry-waits :
    (d : Db) (i : ℕ) (a : JobAttempt)
    → find_attempt i d ≡ some a
    → is_running a.status ≡ true
    → IsBalanced d
    → (now : ℕ) (exc : Exception) (t : FailureType) (traceback : String) (j : Job) (delay : ℕ)
    → find_job a.job d ≡ some j
    → retry_after t j.attempt_count ≡ some delay
    → (locked : ℕ → Bool) (later limit : ℕ) → later < now + seconds delay
    → let failed = (fail_job now i exc t traceback d).1 in
      find_job a.job (promote_ready_retries locked later limit failed).1
      ≡ some (retrying_job now delay (str exc) j)
retry-waits d i a here live b now exc t traceback j delay f e locked later limit early =
    let (k, g, (_, bal, s, _)) = fail_job-Settled d i a here live b now exc t traceback in
    let same : k ≡ j = cc (f, g) in
    promote_ready_retries-Stands a.job (retrying_job now delay (str exc) j) locked later limit
      (fail_job now i exc t traceback d).1 bal.keyed (rw (same, e) at s) (ground arith)
