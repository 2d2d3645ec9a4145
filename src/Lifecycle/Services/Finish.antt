-- ===== src/Lifecycle/Services/Finish.antt =====
-- The services that end an attempt: `complete_job`, `fail_job`, `fail_attempt`, `reconcile_attempt`.
use mt_jobs.Base.{
  ℕ, String, Bool, true, Option, none, some, ◌≡◌, ◌⊎◌, refl, sym, ◌==◌, arith, reject, Option-cases,
  Bool-cases, inl, inr,
}
use mt_jobs.Base.Table.{save, find-key}
use mt_jobs.Models.Json.{Json}
use mt_jobs.Models.Job.{Job, JobStatus}
use mt_jobs.Models.Attempt.{JobAttempt, FailureType, is_running}
use mt_jobs.Domain.Exceptions.{Exception, ok, err, str}
use mt_jobs.Store.Exec.{roll_back-keeps}
use mt_jobs.Store.Db.{Db, find_job, find_attempt, find_state, job_pk, attempt_pk}
use mt_jobs.Services.Execution.{
  complete_job, fail_job, settle, retry_after, retry_delays, release_capacity, succeeded_job,
  retrying_job, failed_job, succeeded_attempt, failed_attempt,
}
use mt_jobs.Services.Failure.{finalize_failure, fail_attempt}
use mt_jobs.Services.Reconciliation.{reconcile_attempt, abandoned_attempt}
use mt_jobs.Capacity.Release.{reserved_by, locked_by, released, release_capacity-eq}
use mt_jobs.Capacity.Fail.{finalize-eq-settle, delay_of-eq-retry_after}
use mt_jobs.Lifecycle.Moves.{Move, Edits, one_move}

-- Releasing a slot leaves the jobs alone.
pub jobs-release_capacity :
    (now : ℕ) (j : Job) (d : Db) → (release_capacity now j d).1.jobs ≡ d.jobs
unfolding release_capacity
jobs-release_capacity now j d = elim (Option-cases (find_state j.tenant d)) [
  | inl e ↦ rw e
  | inr (s, e) ↦ elim (Bool-cases (s.active_reservations == 0)) [
    | inl z ↦ rw (e, z)
    | inr z ↦ rw (e, z)
  ]
]

-- It raises where the tenant has no counter, and else succeeds.
pub release_cases :
    (now : ℕ) (j : Job) (d : Db)
    → ((x : Exception) × (e : Db) × (release_capacity now j d ≡ (err x, e)))
      ⊎ ((e : Db) × (release_capacity now j d ≡ (ok tt, e)) × (e.jobs ≡ d.jobs))
unfolding release_capacity
release_cases now j d = elim (Option-cases (find_state j.tenant d)) [
  | inl e ↦ inl (
    Exception.does_not_exist "TenantSchedulerState",
    record d {
      reservations = reject (reserved_by j.id) d.reservations;
      locks = reject (locked_by j.id) d.locks;
    },
    rw e refl,
  )
  | inr (s, e) ↦ inr (released now j s d, release_capacity-eq now j d s e, refl)
]

retry_after→retry_delays :
    (t : FailureType) (n : ℕ) {delay : ℕ}
    → retry_after t n ≡ some delay
    → retry_delays n ≡ some delay
unfolding retry_after
retry_after→retry_delays t n h = ground arith

module _ (ends : JobStatus → Bool) (starts : Bool) (now : ℕ) (d : Db) where
  abbrev pub History : Db → Type 0
  History e = Edits ends starts d.jobs e.jobs

  settle-History :
      (t : FailureType) (message : String) (j : Job) (o : Option ℕ) (e : Db)
      → e.jobs ≡ d.jobs
      → find_job j.id d ≡ some j
      → ends j.status ≡ true
      → (o ≡ retry_after t j.attempt_count)
      → History (settle now t message j o e).1
  unfolding settle
  settle-History t message j (some delay) e same here h p =
      rw (jobs-release_capacity, same)
        (one_move d.jobs j (retrying_job now delay message j) here
          (Move.retries now delay message h (retry_after→retry_delays t j.attempt_count (sym p))))
  settle-History t message j none e same here h p =
      rw (jobs-release_capacity, same)
        (one_move d.jobs j (failed_job now message j) here (Move.gives_up now message h))

  finalize_failure-History :
      (i : ℕ) (t : FailureType) (message : String) (e : Db)
      → e.jobs ≡ d.jobs
      → ((j : Job) → find_job i d ≡ some j → ends j.status ≡ true)
      → History (finalize_failure now i t message e).1
  unfolding finalize_failure
  finalize_failure-History i t message e same may = elim (Option-cases (find_job i d)) [
    | inl f ↦ rw (same, f) Edits.start
    | inr (j, f) ↦
        let o = retry_after t j.attempt_count in
        let done =
          settle-History t message j o e same (find-key job_pk i j.id d.jobs f refl) (may j f)
            refl in
        let g : find_job i e ≡ some j = rw same f in
        rw (g, delay_of-eq-retry_after, finalize-eq-settle)
          (roll_back-keeps History e (settle now t message j o e) (rw same Edits.start) done)
  ]

  module _ (i : ℕ)
      (may : (a : JobAttempt) (j : Job)
        → find_attempt i d ≡ some a
        → find_job a.job d ≡ some j
        → ends j.status ≡ true) where
    pub complete_job-History : (result : Json) → History (complete_job now i result d).1
    unfolding complete_job
    complete_job-History result = elim (Option-cases (find_attempt i d)) [
      | inl e ↦ rw e Edits.start
      | inr (a, e) ↦ elim (Option-cases (find_job a.job d)) [
        | inl f ↦ rw (e, f) Edits.start
        | inr (j, f) ↦
            let j' = succeeded_job now result j in
            let mid : Db = record d {
              attempts = save attempt_pk (succeeded_attempt now a) d.attempts;
              jobs = save job_pk j' d.jobs;
            } in
            rw (e, f)
              (roll_back-keeps History d (release_capacity now j' mid) Edits.start (
                rw jobs-release_capacity (
                  one_move d.jobs j j' (find-key job_pk a.job j.id d.jobs f refl)
                    (Move.completes now result (may a j e f)))))
      ]
    ]

    pub fail_job-History :
        (exc : Exception) (t : FailureType) (traceback : String)
        → History (fail_job now i exc t traceback d).1
    unfolding fail_job
    fail_job-History exc t traceback = elim (Option-cases (find_attempt i d)) [
      | inl e ↦ rw e Edits.start
      | inr (a, e) ↦ elim (Option-cases (find_job a.job d)) [
        | inl f ↦ rw (e, f) Edits.start
        | inr (j, f) ↦
            let o = retry_after t j.attempt_count in
            let mid : Db = record d {
              attempts =
                  save attempt_pk (failed_attempt now t (some (str exc)) (some traceback) a)
                    d.attempts;
            } in
            rw (e, f)
              (roll_back-keeps History d (settle now t (str exc) j o mid) Edits.start (
                settle-History t (str exc) j o mid refl (find-key job_pk a.job j.id d.jobs f refl)
                  (may a j e f) refl))
      ]
    ]

    pub fail_attempt-History :
        (exc : Exception) (t : FailureType) → History (fail_attempt now i exc t d).1
    unfolding fail_attempt
    fail_attempt-History exc t = elim (Option-cases (find_attempt i d)) [
      | inl e ↦ rw e Edits.start
      | inr (a, e) ↦
          let mid : Db = record d {
            attempts =
                save attempt_pk (failed_attempt now t (some (str exc)) a.traceback a) d.attempts;
          } in
          rw e (
            roll_back-keeps History d (finalize_failure now a.job t (str exc) mid) Edits.start
              (finalize_failure-History a.job t (str exc) mid refl (λ j f. may a j e f)))
    ]

-- The reaper ends an attempt only while it runs.
pub reconcile_attempt-History :
    (ends : JobStatus → Bool) (starts : Bool) (now i : ℕ) (d : Db)
    → ((a : JobAttempt) (j : Job)
        → find_attempt i d ≡ some a
        → is_running a.status ≡ true
        → find_job a.job d ≡ some j
        → ends j.status ≡ true)
    → Edits ends starts d.jobs (reconcile_attempt now i d).1.jobs
unfolding reconcile_attempt
reconcile_attempt-History ends starts now i d may = elim (Option-cases (find_attempt i d)) [
  | inl e ↦ rw e Edits.start
  | inr (a, e) ↦ elim (Bool-cases (is_running a.status)) [
    | inr ended ↦ rw (e, ended) Edits.start
    | inl live ↦
        let mid : Db = record d {
          attempts = save attempt_pk (abandoned_attempt now a) d.attempts;
        } in
        rw (e, live)
          (roll_back-keeps (History ends starts now d) d
            (finalize_failure now a.job FailureType.infrastructure "Worker lease expired" mid)
            Edits.start
            (finalize_failure-History ends starts now d a.job FailureType.infrastructure
              "Worker lease expired" mid refl (λ j f. may a j e live f)))
  ]
]
