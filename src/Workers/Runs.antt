-- ===== src/Workers/Runs.antt =====
-- A run of `execute` (jobs/services/execution.py) from the claim to the end of the job.
use mt_jobs.Base.{
  ℕ, suc, false, true, some, none, List, [], ◌∷◌, ◌++◌, ◌≡◌, refl, subst, any, arith, inl, inr,
}
use mt_jobs.Base.Table.{find, save, find-key, find-pk, find-save, find-append}
use mt_jobs.Models.Json.{Json}
use mt_jobs.Models.Job.{Job, JobStatus}
use mt_jobs.Models.Attempt.{JobAttempt, is_running}
use mt_jobs.Domain.Exceptions.{Exception, Result, ok, err, str, Result-cases}
use mt_jobs.Store.Exec.{Exec, try_catch, ◌>>=◌}
use mt_jobs.Store.Db.{Db, find_job, find_attempt, job_pk, attempt_pk, attempts_conflict}
use mt_jobs.Handlers.Context.{Handler}
use mt_jobs.Handlers.Registry.{get_handler}
use mt_jobs.Services.Execution.{
  Worker, execute, run_attempt, claim_job, start_attempt, executing_job, new_attempt, complete_job,
  fail_job, failure_type_of, retry_after, succeeded_job,
}
use mt_jobs.Services.Outbox.{World}
use mt_jobs.Tasks.{execute_job}
use mt_jobs.System.Steps.{Step, after}
use mt_jobs.Capacity.Balance.{IsBalanced}
use mt_jobs.Capacity.Claim.{claim_job-IsBalanced}
use mt_jobs.Capacity.Complete.{complete_job-succeeds}
use mt_jobs.Capacity.Fail.{settled_job, fail_job-Settled}

-- What the handler of a job answers: without a handler, the exception of `get_handler`.
abbrev handled : Result Handler → Job → JobAttempt → Db → Result Json × Db
handled (err e) job attempt d = (err e, d)
handled (ok h) job attempt d = h job.payload (record { job = job; attempt = attempt }) d

abbrev pub answer : Worker → Job → JobAttempt → Db → Result Json × Db
answer w job attempt d = handled (get_handler w.registry job.job_type) job attempt d

-- The job at the end of a run.
abbrev pub ended_job : ℕ → Job → Result Json → Job
ended_job now job (ok result) = succeeded_job now result job
ended_job now job (err exc) =
    settled_job now (str exc) job (retry_after (failure_type_of exc) job.attempt_count)

find_attempt-fresh :
    (a : JobAttempt) (xs : List JobAttempt)
    → any (attempts_conflict a) xs ≡ false
    → find attempt_pk a.id xs ≡ none
unfolding any find
find_attempt-fresh a [] h = refl
find_attempt-fresh a (x ∷ xs) h = ground (arith, find_attempt-fresh a xs)

-- The service that a run ends with, for each answer of the handler.
abbrev pub ending : Worker → ℕ → Result Json → Exec Db (Unit {0})
ending w id (ok result) = complete_job w.finished_at id result
ending w id (err exc) = fail_job w.finished_at id exc (failure_type_of exc) (w.format_exc exc)

ending-Step :
    (w : Worker) (u : World) (id : ℕ) (a : JobAttempt) (r : Result Json)
    → find_attempt id u.db ≡ some a
    → is_running a.status ≡ true
    → Step u (after (ending w id r) u)
ending-Step w u id a (ok result) here runs = Step.complete w.finished_at id a result here runs
ending-Step w u id a (err exc) here runs =
    Step.fail w.finished_at id a exc (failure_type_of exc) (w.format_exc exc) here runs

module _ (w : Worker) (i : ℕ) (d : Db) (j : Job) where
  abbrev pub claimed : Job
  claimed = executing_job w.claimed_at j

  abbrev pub attempt : JobAttempt
  attempt = new_attempt d.next_uuid w.claimed_at w.hostname claimed

  abbrev pub claimed_db : Db
  claimed_db = record d {
    jobs = save job_pk claimed d.jobs;
    attempts = d.attempts ++ attempt ∷ [];
    next_uuid = suc d.next_uuid;
  }

  module _ (here : find_job i d ≡ some j) (queued : j.status ≡ JobStatus.queued)
      (fresh : any (attempts_conflict attempt) d.attempts ≡ false) where
    claim_job-eq :
        claim_job w.claimed_at w.hostname i d ≡ (ok (some (attempt, claimed)), claimed_db)
    unfolding claim_job start_attempt
    claim_job-eq = rw (here, queued, fresh) refl

    module _ (b : IsBalanced d) where
      claimed_db-IsBalanced : IsBalanced claimed_db
      claimed_db-IsBalanced =
          rw claim_job-eq at (claim_job-IsBalanced w.claimed_at w.hostname i d b)

      attempt_here : find_attempt d.next_uuid claimed_db ≡ some attempt
      attempt_here = ground (
        arith,
        find-append attempt_pk d.next_uuid attempt d.attempts
            (find_attempt-fresh attempt d.attempts fresh),
      )

      job_here : find_job j.id claimed_db ≡ some claimed
      job_here =
          ground (
            arith,
            find-save job_pk j.id claimed j d.jobs (find-key job_pk i j.id d.jobs here refl),
          )

      -- The run is over, and its job ended as the answer says.
      abbrev Ends : Result Json → Result (Unit {0}) × Db → Type 0
      Ends r x =
          (x.0 ≡ ok tt)
          × IsBalanced x.1
          × (find_job j.id x.1 ≡ some (ended_job w.finished_at claimed r))

      fails-Ends :
          (exc : Exception)
          → Ends (err exc) (
              fail_job w.finished_at d.next_uuid exc
                (failure_type_of exc)
                (w.format_exc exc)
                claimed_db)
      fails-Ends exc =
          let (k, f, (r, bal, g, _)) =
            fail_job-Settled claimed_db d.next_uuid attempt attempt_here refl claimed_db-IsBalanced
              w.finished_at exc (failure_type_of exc) (w.format_exc exc) in
          let same : k ≡ claimed = cc (f, job_here) in (r, bal, rw same at g)

      answered-Ends :
          (x : Result Json × Db)
          → x.1 ≡ claimed_db
          → Ends x.0 (
              try_catch
                ((λ _. x) >>= λ result. complete_job w.finished_at d.next_uuid result)
                (λ exc.
                  fail_job w.finished_at d.next_uuid exc (failure_type_of exc) (w.format_exc exc))
                claimed_db)
      answered-Ends (ok result, e) q =
          let (e', run, bal, (k, f, g)) =
            complete_job-succeeds claimed_db d.next_uuid attempt attempt_here refl
              claimed_db-IsBalanced w.finished_at result in
          let same : k ≡ claimed = cc (f, job_here) in rw (q, run) (refl, bal, rw same at g)
      answered-Ends (err exc, e) q = rw q (fails-Ends exc)

      run_attempt-Ends :
          (answer w claimed attempt claimed_db).1 ≡ claimed_db
          → Ends
              (answer w claimed attempt claimed_db).0
              (run_attempt w (attempt, claimed) claimed_db)
      unfolding run_attempt
      run_attempt-Ends quiet = elim (Result-cases (get_handler w.registry j.job_type)) [
        | inl (e, q) ↦ rw q (fails-Ends e)
        | inr (h, q) ↦ rw q (
            answered-Ends (h j.payload (record { job = claimed; attempt = attempt }) claimed_db)
              (rw q at quiet))
      ]

      -- In a balanced state, for a queued job whose next attempt breaks no unique constraint and
      -- whose handler leaves the database as the claim left it, `execute` raises nothing, leaves
      -- the state balanced, and the job has ended as the handler answered: SUCCEEDED with the
      -- result, or, for an exception or a missing handler, to be retried or failed for good as its
      -- failure type and number of attempts say.
      pub execute-Ends :
          (answer w claimed attempt claimed_db).1 ≡ claimed_db
          → ((execute w i d).0 ≡ ok tt)
            × IsBalanced (execute w i d).1
            × (find_job i (execute w i d).1
                ≡ some (ended_job w.finished_at claimed (answer w claimed attempt claimed_db).0))
      unfolding execute
      execute-Ends quiet =
          let key : j.id ≡ i = find-pk job_pk i d.jobs here in
          let (r, bal, f) = run_attempt-Ends quiet in
          let last = ended_job w.finished_at claimed (answer w claimed attempt claimed_db).0 in
          rw claim_job-eq (
            r,
            bal,
            subst (λ k. find_job k (run_attempt w (attempt, claimed) claimed_db).1 ≡ some last) key
                f,
          )

      answered-eq :
          (x : Result Json × Db)
          → x.1 ≡ claimed_db
          → try_catch
              ((λ _. x) >>= λ result. complete_job w.finished_at d.next_uuid result)
              (λ exc.
                fail_job w.finished_at d.next_uuid exc (failure_type_of exc) (w.format_exc exc))
              claimed_db
            ≡ ending w d.next_uuid x.0 claimed_db
      answered-eq (ok result, e) q =
          let (e', run, _, _) =
            complete_job-succeeds claimed_db d.next_uuid attempt attempt_here refl
              claimed_db-IsBalanced w.finished_at result in
          rw (q, run) refl
      answered-eq (err exc, e) q = rw q refl

      execute-eq :
          (answer w claimed attempt claimed_db).1 ≡ claimed_db
          → execute w i d ≡ ending w d.next_uuid (answer w claimed attempt claimed_db).0 claimed_db
      unfolding execute run_attempt
      execute-eq quiet = rw claim_job-eq (elim (Result-cases (get_handler w.registry j.job_type)) [
        | inl (e, q) ↦ rw q refl
        | inr (h, q) ↦ rw q (
            answered-eq (h j.payload (record { job = claimed; attempt = attempt }) claimed_db)
              (rw q at quiet))
      ])

-- A run of `execute_job` that claims the job by a new attempt of the worker, which is stored and
-- runs, and then does what `ending` says for the answer of the handler; each is a step.
abbrev pub Runs : Worker → ℕ → Job → World → Type 0
Runs w i j v =
    let u = after (claim_job w.claimed_at w.hostname i) v in
    let job = claimed w i v.db j in
    let a = attempt w i v.db j in
    ((claim_job w.claimed_at w.hostname i v.db).0 ≡ ok (some (a, job)))
    × (find_attempt v.db.next_uuid u.db ≡ some a)
    × (is_running a.status ≡ true)
    × Step v u
    × Step u (after (execute_job w i) v)
    × (after (execute_job w i) v ≡ after (ending w v.db.next_uuid (answer w job a u.db).0) u)

module _ (w : Worker) (i : ℕ) (d : Db) (j : Job) (here : find_job i d ≡ some j)
    (queued : j.status ≡ JobStatus.queued)
    (fresh : any (attempts_conflict (attempt w i d j)) d.attempts ≡ false) (b : IsBalanced d) where
  task-eq :
      (queue : List ℕ)
      → (answer w (claimed w i d j) (attempt w i d j) (claimed_db w i d j)).1 ≡ claimed_db w i d j
      → after (execute_job w i) (record { db = d; queue = queue })
        ≡ after
            (ending w d.next_uuid
              (answer w (claimed w i d j) (attempt w i d j) (claimed_db w i d j)).0)
            (record { db = claimed_db w i d j; queue = queue })
  unfolding execute_job
  task-eq queue quiet = rw (execute-eq w i d j here queued fresh b quiet) refl

  -- In a balanced state, for a queued job whose next attempt breaks no unique constraint and whose
  -- handler leaves the database as the claim left it, the task `execute_job` is two steps: the
  -- claim, and then, while the attempt runs, the service that the answer asks for.
  pub task-Runs :
      (queue : List ℕ)
      → (answer w (claimed w i d j) (attempt w i d j) (claimed_db w i d j)).1 ≡ claimed_db w i d j
      → Runs w i j (record { db = d; queue = queue })
  task-Runs queue quiet =
      let u : World = record { db = claimed_db w i d j; queue = queue } in
      let a = attempt w i d j in
      let stored = attempt_here w i d j here queued fresh b in
      let claim = claim_job-eq w i d j here queued fresh in
      let v : World = record { db = d; queue = queue } in
      let started : Step v (after (claim_job w.claimed_at w.hostname i) v) =
        Step.claim w.claimed_at w.hostname i in
      let step : Step v u = rw claim at started in
      let answered = (answer w (claimed w i d j) a (claimed_db w i d j)).0 in
      let end = ending-Step w u d.next_uuid a answered stored refl in
      rw (task-eq queue quiet, claim) (refl, stored, refl, step, end, refl)
