-- ===== src/Capacity/Fail.antt =====
-- `fail_job` (jobs/services/execution.py), `finalize_failure` and `fail_attempt`
-- (jobs/services/failure.py) and `reconcile_attempt` (jobs/services/reconciliation.py) on an attempt
-- that runs.
use mt_jobs.Base.{
  ℕ, suc, String, true, false, Option, none, some, List, ◌≡◌, refl, any, arith, eq→==, Bool-cases,
  inl, inr,
}
use mt_jobs.Base.Table.{save, find-key, find-save, any-append}
use mt_jobs.Models.Job.{Job}
use mt_jobs.Models.Attempt.{JobAttempt, FailureType, is_running}
use mt_jobs.Models.DeadLetter.{DeadLetterJob}
use mt_jobs.Domain.Exceptions.{Exception, Result, ok, str}
use mt_jobs.Store.Exec.{roll_back_ok}
use mt_jobs.Store.Db.{Db, find_job, find_attempt, job_pk, attempt_pk, is_dead, with_letter}
use mt_jobs.Services.Execution.{
  fail_job, settle, retry_after, retrying_job, failed_job, failed_attempt, new_dead_letter,
  release_capacity,
}
use mt_jobs.Services.Failure.{finalize, finalize_failure, fail_attempt, delay_of}
use mt_jobs.Services.Reconciliation.{reconcile_attempt, abandoned_attempt}
use mt_jobs.Capacity.Balance.{IsBalanced, holds, works}
use mt_jobs.Capacity.Attempts.{attempt_job, attempt_ends}
use mt_jobs.Capacity.Finish.{release_succeeds}

-- The job as a failure leaves it: to be retried after a delay, or failed for good.
abbrev pub settled_job : ℕ → String → Job → Option ℕ → Job
settled_job now message j (some delay) = retrying_job now delay message j
settled_job now message j none = failed_job now message j

any-with_letter :
    (l : DeadLetterJob) (letters : List DeadLetterJob)
    → any (is_dead l.job) (with_letter l letters) ≡ true
unfolding with_letter
any-with_letter l letters = elim (Bool-cases (any (is_dead l.job) letters)) [
  | inl e ↦ rw e e
  | inr e ↦ rw e (any-append (is_dead l.job) letters l (eq→== l.job l.job refl))
]

pub finalize-eq-settle :
    (now : ℕ) (t : FailureType) (m : String) (j : Job) (o : Option ℕ) (d : Db)
    → finalize now t m j o d ≡ settle now t m j o d
unfolding finalize settle
finalize-eq-settle now t m j none d = refl
finalize-eq-settle now t m j (some delay) d = refl

pub delay_of-eq-retry_after : (t : FailureType) (n : ℕ) → delay_of t n ≡ retry_after t n
unfolding delay_of retry_after
delay_of-eq-retry_after FailureType.transient n = refl
delay_of-eq-retry_after FailureType.permanent n = refl
delay_of-eq-retry_after FailureType.infrastructure n = refl
delay_of-eq-retry_after FailureType.timeout n = refl
delay_of-eq-retry_after FailureType.unknown n = refl

-- What a failure of the attempt leaves.
abbrev pub Settled : ℕ → String → JobAttempt → Option ℕ → Job → Result (Unit {0}) × Db → Type 0
Settled now message a o j r =
    (r.0 ≡ ok tt)
    × IsBalanced r.1
    × (find_job a.job r.1 ≡ some (settled_job now message j o))
    × (o ≡ none → any (is_dead a.job) r.1.dead_letters ≡ true)

module _ (d : Db) (i : ℕ) (a : JobAttempt) (here : find_attempt i d ≡ some a)
    (live : is_running a.status ≡ true) (b : IsBalanced d) (a' : JobAttempt) (same : a'.id ≡ a.id)
    (same_job : a'.job ≡ a.job) (stopped : is_running a'.status ≡ false) (now : ℕ) (t : FailureType)
    (message : String) (j : Job) (self : find_job j.id d ≡ some j) (key : j.id ≡ a.job)
    (held : holds j.status ≡ true) where
  release_settled :
      (j' : Job) (letters : List DeadLetterJob) (n : ℕ)
      → j'.id ≡ j.id
      → j'.tenant ≡ j.tenant
      → holds j'.status ≡ false
      → works j'.status ≡ false
      → let mid : Db = record d {
        attempts = save attempt_pk a' d.attempts;
        jobs = save job_pk j' d.jobs;
        dead_letters = letters;
        next_uuid = n;
      } in
        let r = release_capacity now j' mid in
        (r.0 ≡ ok tt)
        × IsBalanced r.1
        × (find_job a.job r.1 ≡ some j')
        × (r.1.dead_letters ≡ letters)
  release_settled j' letters n id tenant h w =
      let mid : Db = record d {
        attempts = save attempt_pk a' d.attempts;
        jobs = save job_pk j' d.jobs;
        dead_letters = letters;
        next_uuid = n;
      } in
      let at = find-key job_pk j.id j'.id d.jobs self id in
      let (s, run, bal) =
        release_succeeds now d mid j j' at tenant held h w refl refl refl refl
          (λ k. rw (id, key) (attempt_ends d i a here live b a' same same_job stopped k)) b in
      rw run (refl, bal, ground (arith, id, key, find-save job_pk a.job j' j d.jobs at), refl)

  settle-Settled :
      (o : Option ℕ)
      → Settled now message a o j
          (settle now t message j o (record d { attempts = save attempt_pk a' d.attempts }))
  unfolding settle
  settle-Settled (some delay) =
      let (r, bal, f, _) =
        release_settled (retrying_job now delay message j) d.dead_letters d.next_uuid refl refl refl
          refl in
      (r, bal, f, λ e. cc)
  settle-Settled none =
      let l = new_dead_letter d.next_uuid now t message j in
      let (r, bal, f, ls) =
        release_settled (failed_job now message j) (with_letter l d.dead_letters) (suc d.next_uuid)
          refl refl refl refl in
      (r, bal, f, λ e. rw (ls, ← key) (any-with_letter l d.dead_letters))

module _ (d : Db) (i : ℕ) (a : JobAttempt) (here : find_attempt i d ≡ some a)
    (live : is_running a.status ≡ true) (b : IsBalanced d) (now : ℕ) where
  -- In a balanced state, `fail_job` on a running attempt raises nothing, leaves the state
  -- balanced, and its job waits for the retry if the failure type and the number of attempts allow
  -- one, or else has failed for good and is in the dead letter queue.
  pub fail_job-Settled :
      (exc : Exception) (t : FailureType) (traceback : String)
      → (j : Job) × (find_job a.job d ≡ some j)
        × Settled now
            (str exc)
            a
            (retry_after t j.attempt_count)
            j
            (fail_job now i exc t traceback d)
  unfolding fail_job
  fail_job-Settled exc t traceback =
      let (j, e, self, key, w, h) = attempt_job d i a here live b in
      let a' = failed_attempt now t (some (str exc)) (some traceback) a in
      let o = retry_after t j.attempt_count in
      let done =
        settle-Settled d i a here live b a' refl refl refl now t (str exc) j self key h o in
      let eq : fail_job now i exc t traceback d
          ≡ settle now t (str exc) j o (record d { attempts = save attempt_pk a' d.attempts }) =
        rw (here, e) (roll_back_ok d _ done.0) in
      (j, e, rw eq done)

  module _ (t : FailureType) (message : String) (a' : JobAttempt) (same : a'.id ≡ a.id)
      (same_job : a'.job ≡ a.job) (stopped : is_running a'.status ≡ false) where
    -- `finalize_failure` after the attempt was saved as ended.
    finalize_failure-Settled :
        (j : Job) × (find_job a.job d ≡ some j)
        × Settled now message a (retry_after t j.attempt_count) j (
            finalize_failure now a.job t message
              (record d { attempts = save attempt_pk a' d.attempts }))
    unfolding finalize_failure
    finalize_failure-Settled =
        let (j, e, self, key, w, h) = attempt_job d i a here live b in
        let o = retry_after t j.attempt_count in
        let mid : Db = record d { attempts = save attempt_pk a' d.attempts } in
        let done =
          settle-Settled d i a here live b a' same same_job stopped now t message j self key h o in
        let eq : finalize_failure now a.job t message mid ≡ settle now t message j o mid =
          rw
            (e, delay_of-eq-retry_after t j.attempt_count, finalize-eq-settle now t message j o mid)
            (roll_back_ok mid _ done.0) in
        (j, e, rw eq done)

  -- `fail_attempt` does the same.
  pub fail_attempt-Settled :
      (exc : Exception) (t : FailureType)
      → (j : Job) × (find_job a.job d ≡ some j)
        × Settled now (str exc) a (retry_after t j.attempt_count) j (fail_attempt now i exc t d)
  unfolding fail_attempt
  fail_attempt-Settled exc t =
      let a' = failed_attempt now t (some (str exc)) a.traceback a in
      let (j, e, done) = finalize_failure-Settled t (str exc) a' refl refl refl in
      let eq : fail_attempt now i exc t d
          ≡ finalize_failure now a.job t (str exc)
              (record d { attempts = save attempt_pk a' d.attempts }) =
        rw here (roll_back_ok d _ done.0) in
      (j, e, rw eq done)

  -- In a balanced state, `reconcile_attempt` on a running attempt raises nothing, leaves the state
  -- balanced, and its job waits for the retry that an infrastructure failure is granted, or has
  -- failed for good and is in the dead letter queue.
  pub reconcile_attempt-Settled :
      (j : Job) × (find_job a.job d ≡ some j)
      × Settled now "Worker lease expired" a
          (retry_after FailureType.infrastructure j.attempt_count)
          j
          (reconcile_attempt now i d)
  unfolding reconcile_attempt
  reconcile_attempt-Settled =
      let a' = abandoned_attempt now a in
      let (j, e, done) =
        finalize_failure-Settled FailureType.infrastructure "Worker lease expired" a' refl refl
          refl in
      let eq : reconcile_attempt now i d
          ≡ finalize_failure now a.job FailureType.infrastructure "Worker lease expired"
              (record d { attempts = save attempt_pk a' d.attempts }) =
        rw (here, live) (roll_back_ok d _ done.0) in
      (j, e, rw eq done)
