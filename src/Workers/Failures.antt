-- ===== src/Workers/Failures.antt =====
-- The two ways to report a failure: `fail_job` (jobs/services/execution.py) and `fail_attempt`
-- (jobs/services/failure.py), each with tables of its own.
use mt_jobs.Base.{
  ℕ, suc, String, Option, some, none, List, ◌≡◌, ◌==◌, refl, Option-cases, Bool-cases, inl, inr,
}
use mt_jobs.Models.Job.{Job}
use mt_jobs.Models.Attempt.{JobAttempt, FailureType}
use mt_jobs.Domain.Exceptions.{Exception, Result, ok, err, str}
use mt_jobs.Store.Exec.{roll_back}
use mt_jobs.Store.Db.{Db, find_job, find_attempt, find_state, job_pk, with_letter}
use mt_jobs.Base.Table.{save}
use mt_jobs.Services.Execution.{
  fail_job, settle, retry_after, release_capacity, failed_job, retrying_job, new_dead_letter,
}
use mt_jobs.Services.Failure.{fail_attempt, finalize_failure}
use mt_jobs.Capacity.Fail.{finalize-eq-settle, delay_of-eq-retry_after}

-- Two results are the same but for the attempts.
abbrev pub AgreesButAttempts : {A : Type 0} → Result A × Db → Result A × Db → Type 0
AgreesButAttempts p q = (p.0 ≡ q.0) × (p.1 ≡ record q.1 { attempts = p.1.attempts })

release-Agrees :
    (now : ℕ) (j : Job) (d : Db) (xs ys : List JobAttempt)
    → AgreesButAttempts
        (release_capacity now j (record d { attempts = xs }))
        (release_capacity now j (record d { attempts = ys }))
unfolding release_capacity
release-Agrees now j d xs ys = elim (Option-cases (find_state j.tenant d)) [
  | inl e ↦ rw e (refl, refl)
  | inr (s, e) ↦ elim (Bool-cases (s.active_reservations == 0)) [
    | inl z ↦ rw (e, z) (refl, refl)
    | inr n ↦ rw (e, n) (refl, refl)
  ]
]

settle-Agrees :
    (now : ℕ) (t : FailureType) (m : String) (j : Job) (o : Option ℕ) (d : Db)
    (xs ys : List JobAttempt)
    → AgreesButAttempts
        (settle now t m j o (record d { attempts = xs }))
        (settle now t m j o (record d { attempts = ys }))
unfolding settle
settle-Agrees now t m j none d xs ys =
    release-Agrees now (failed_job now m j)
      (record d {
        jobs = save job_pk (failed_job now m j) d.jobs;
        dead_letters = with_letter (new_dead_letter d.next_uuid now t m j) d.dead_letters;
        next_uuid = suc d.next_uuid;
      })
      xs ys
settle-Agrees now t m j (some delay) d xs ys =
    release-Agrees now (retrying_job now delay m j)
      (record d { jobs = save job_pk (retrying_job now delay m j) d.jobs }) xs ys

roll_back-Agrees :
    {A : Type 0} (d mid : Db) (p q : Result A × Db)
    → AgreesButAttempts p q
    → AgreesButAttempts (roll_back d p) (roll_back d (roll_back mid q))
roll_back-Agrees d mid (ok a, x) (ok b, y) h = h
roll_back-Agrees d mid (err a, x) (err b, y) h = (h.0, refl)
roll_back-Agrees d mid (ok a, x) (err b, y) h = cc (h.0)
roll_back-Agrees d mid (err a, x) (ok b, y) h = cc (h.0)

-- On every state, `fail_job` and `fail_attempt` return the same and leave the same database but
-- for the attempts, whose tracebacks they treat differently.
pub fail_job-Agrees :
    (now i : ℕ) (exc : Exception) (t : FailureType) (traceback : String) (d : Db)
    → AgreesButAttempts (fail_job now i exc t traceback d) (fail_attempt now i exc t d)
unfolding fail_job fail_attempt finalize_failure
fail_job-Agrees now i exc t traceback d = elim (Option-cases (find_attempt i d)) [
  | inl e ↦ rw e (refl, refl)
  | inr (a, e) ↦ elim (Option-cases (find_job a.job d)) [
    | inl f ↦ rw (e, f) (refl, refl)
    | inr (j, f) ↦
        rw (e, f, delay_of-eq-retry_after t j.attempt_count, finalize-eq-settle)
          (roll_back-Agrees d _ _ _
            (settle-Agrees now t (str exc) j (retry_after t j.attempt_count) d _ _))
  ]
]
