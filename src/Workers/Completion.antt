-- ===== src/Workers/Completion.antt =====
-- A run of `execute` (jobs/services/execution.py) in the running system.
use mt_jobs.Base.{ℕ, false, some, List, ◌≡◌, any}
use mt_jobs.Models.Job.{Job, JobStatus}
use mt_jobs.Models.Tenant.{Tenant}
use mt_jobs.Domain.Exceptions.{ok}
use mt_jobs.Store.Db.{Db, find_job, attempts_conflict}
use mt_jobs.Services.Execution.{Worker, execute}
use mt_jobs.Services.Outbox.{World}
use mt_jobs.Capacity.Balance.{IsBalanced}
use mt_jobs.System.Steps.{Reach}
use mt_jobs.System.Limit.{start, empty-IsBalanced, Reach-IsBalanced}
use mt_jobs.Workers.Runs.{
  answer, ended_job, claimed, attempt, claimed_db, Runs, execute-Ends, task-Runs,
}
use mt_jobs.Workers.Redelivery.{execute-once}
use mt_jobs.Workers.Numbers.{next_attempt-IsFree}

-- The handler of a job, run on the database that the claim left, leaves it alone.
abbrev pub IsQuiet : Worker → ℕ → Db → Job → Type 0
IsQuiet w i d j =
    (answer w (claimed w i d j) (attempt w i d j) (claimed_db w i d j)).1 ≡ claimed_db w i d j

-- A run that ended the job as the handler answered.
abbrev pub Completes : Worker → ℕ → Job → Db → Type 0
Completes w i j d =
    ((execute w i d).0 ≡ ok tt)
    × IsBalanced (execute w i d).1
    × (find_job i (execute w i d).1
        ≡ some (
            ended_job w.finished_at (claimed w i d j)
              (answer w (claimed w i d j) (attempt w i d j) (claimed_db w i d j)).0))

module _ {tenants : List Tenant} {v : World} (w : Worker) (i : ℕ) (j : Job)
    (reached : Reach (start tenants) v) (stands : find_job i v.db ≡ some j)
    (queued : j.status ≡ JobStatus.queued) (quiet : IsQuiet w i v.db j) where
  balanced : IsBalanced v.db
  balanced = Reach-IsBalanced (empty-IsBalanced tenants) reached

  numbered : any (attempts_conflict (attempt w i v.db j)) v.db.attempts ≡ false
  numbered = next_attempt-IsFree i j w.claimed_at w.hostname reached stands

  -- In every state reached from tenants without jobs by steps in which no attempt is completed or
  -- failed after it has ended, for a queued job whose handler leaves the database as the claim
  -- left it, `execute` raises nothing, leaves the state balanced, and the job has ended as the
  -- handler answered: SUCCEEDED with the result, or, for an exception or a missing handler, to be
  -- retried or failed for good as its failure type and number of attempts say.
  pub execute-Completes : Completes w i j v.db
  execute-Completes = execute-Ends w i v.db j stands queued numbered balanced quiet

  -- Under the same conditions, a second `execute` of the job right after the first, by any worker,
  -- does nothing.
  pub execute_again :
      (again : Worker) → let d = (execute w i v.db).1 in execute again i d ≡ (ok tt, d)
  execute_again = execute-once w i v.db j stands queued numbered balanced quiet

  -- In every state reached from tenants without jobs by steps in which no attempt is completed or
  -- failed after it has ended, for a queued job whose handler leaves the database as the claim
  -- left it, the task `execute_job` is two steps: a claim, which returns a new attempt, stored and
  -- running, with the job; and then, while that attempt runs, `complete_job` with the result that
  -- the handler returned, or `fail_job` with the exception that it raised, or that the lookup of a
  -- handler raised, with its failure type and traceback; and the task leaves what that service
  -- leaves.
  pub execute_job-Runs : Runs w i j v
  execute_job-Runs = task-Runs w i v.db j stands queued numbered balanced v.queue quiet
