-- ===== src/Exclusion/Ends.antt =====
-- The locks of jobs with a slot, under the services that may release them (jobs/services).
use mt_jobs.Base.{
  ℕ, String, false, Option, some, none, ◌≡◌, ◌==◌, refl, suc, arith, Option-cases, Bool-cases, inl,
  inr,
}
use mt_jobs.Base.Table.{save, find-key}
use mt_jobs.Models.Json.{Json}
use mt_jobs.Models.Job.{Job, JobStatus, is_status}
use mt_jobs.Models.Attempt.{JobAttempt, FailureType, is_running}
use mt_jobs.Domain.Exceptions.{Exception, str}
use mt_jobs.Store.Exec.{roll_back, roll_back-keeps, >>=-keeps}
use mt_jobs.Store.Db.{Db, find_job, find_attempt, find_state, job_pk, with_letter}
use mt_jobs.Services.SchedulerState.{refresh_scheduler_state}
use mt_jobs.Services.Overlap.{release_overlaps}
use mt_jobs.Services.Execution.{
  complete_job, fail_job, settle, release_capacity, retry_after, retrying_job, failed_job,
  new_dead_letter, succeeded_job, succeeded_attempt,
}
use mt_jobs.Services.Failure.{fail_attempt, finalize_failure, delay_of}
use mt_jobs.Services.Cancellation.{
  cancel_job, cancel_in, cancelled_job, cancel_requested_job, touched_job,
}
use mt_jobs.Services.Reconciliation.{reconcile_attempt, recover_queued, requeued_job}
use mt_jobs.Capacity.Balance.{holds}
use mt_jobs.Capacity.Refresh.{refresh-eq}
use mt_jobs.Capacity.Fail.{finalize-eq-settle}
use mt_jobs.Exclusion.Held.{Held, rest-Held, leave-Held, keep-Held}

module _ (to_text : Json → String) where
  abbrev pub IsHeld : Db → Type 0
  IsHeld d = Held to_text d.jobs d.locks

  pub refresh-IsHeld : (now t : ℕ) (d : Db) → IsHeld d → IsHeld (refresh_scheduler_state now t d).1
  refresh-IsHeld now t d h = rw (refresh-eq now t d) h

  -- The slot of a job that was saved without it is released.
  release-IsHeld :
      (now : ℕ) (y : Job) (d : Db)
      → holds y.status ≡ false
      → IsHeld d
      → IsHeld (release_capacity now y (record d { jobs = save job_pk y d.jobs })).1
  unfolding release_capacity release_overlaps
  release-IsHeld now y d idle h =
      let less = leave-Held to_text d.jobs d.locks h y idle in
      elim (Option-cases (find_state y.tenant d)) [
        | inl e ↦ rw e less
        | inr (s, e) ↦ elim (Bool-cases (s.active_reservations == 0)) [
          | inl z ↦ rw (e, z) less
          | inr n ↦ rw (e, n) less
        ]
      ]

  settle-IsHeld :
      (now : ℕ) (t : FailureType) (m : String) (j : Job) (o : Option ℕ) (d : Db)
      → IsHeld d
      → IsHeld (settle now t m j o d).1
  unfolding settle
  settle-IsHeld now t m j none d h =
      release-IsHeld now (failed_job now m j)
        (record d {
          dead_letters = with_letter (new_dead_letter d.next_uuid now t m j) d.dead_letters;
          next_uuid = suc d.next_uuid;
        })
        refl h
  settle-IsHeld now t m j (some delay) d h =
      release-IsHeld now (retrying_job now delay m j) d refl h

  finalize_failure-IsHeld :
      (now i : ℕ) (t : FailureType) (m : String) (d : Db)
      → IsHeld d
      → IsHeld (finalize_failure now i t m d).1
  unfolding finalize_failure
  finalize_failure-IsHeld now i t m d h = elim (Option-cases (find_job i d)) [
    | inl e ↦ rw e h
    | inr (j, e) ↦
        rw (e, finalize-eq-settle now t m j (delay_of t j.attempt_count) d)
          (roll_back-keeps IsHeld d _ h (settle-IsHeld now t m j (delay_of t j.attempt_count) d h))
  ]

  pub fail_job-IsHeld :
      (now i : ℕ) (exc : Exception) (t : FailureType) (traceback : String) (d : Db)
      → IsHeld d
      → IsHeld (fail_job now i exc t traceback d).1
  unfolding fail_job
  fail_job-IsHeld now i exc t traceback d h = elim (Option-cases (find_attempt i d)) [
    | inl e ↦ rw e h
    | inr (a, e) ↦ elim (Option-cases (find_job a.job d)) [
      | inl f ↦ rw (e, f) h
      | inr (j, f) ↦
          rw (e, f)
            (roll_back-keeps IsHeld d _ h
              (settle-IsHeld now t (str exc) j (retry_after t j.attempt_count) _ h))
    ]
  ]

  pub fail_attempt-IsHeld :
      (now i : ℕ) (exc : Exception) (t : FailureType) (d : Db)
      → IsHeld d
      → IsHeld (fail_attempt now i exc t d).1
  unfolding fail_attempt
  fail_attempt-IsHeld now i exc t d h = elim (Option-cases (find_attempt i d)) [
    | inl e ↦ rw e h
    | inr (a, e) ↦
        rw e (roll_back-keeps IsHeld d _ h (finalize_failure-IsHeld now a.job t (str exc) _ h))
  ]

  pub reconcile_attempt-IsHeld :
      (now i : ℕ) (d : Db) → IsHeld d → IsHeld (reconcile_attempt now i d).1
  unfolding reconcile_attempt
  reconcile_attempt-IsHeld now i d h = elim (Option-cases (find_attempt i d)) [
    | inl e ↦ rw e h
    | inr (a, e) ↦ elim (Bool-cases (is_running a.status)) [
      | inr ended ↦ rw (e, ended) h
      | inl live ↦
          rw (e, live)
            (roll_back-keeps IsHeld d _ h (
              finalize_failure-IsHeld now a.job FailureType.infrastructure "Worker lease expired" _
                h))
    ]
  ]

  pub complete_job-IsHeld :
      (now i : ℕ) (result : Json) (d : Db) → IsHeld d → IsHeld (complete_job now i result d).1
  unfolding complete_job
  complete_job-IsHeld now i result d h = elim (Option-cases (find_attempt i d)) [
    | inl e ↦ rw e h
    | inr (a, e) ↦ elim (Option-cases (find_job a.job d)) [
      | inl f ↦ rw (e, f) h
      | inr (j, f) ↦
          rw (e, f)
            (roll_back-keeps IsHeld d _ h (
              release-IsHeld now (succeeded_job now result j)
                (record d {
                  attempts = save (λ (x : JobAttempt). x.id) (succeeded_attempt now a) d.attempts;
                })
                refl h))
    ]
  ]

  pub recover_queued-IsHeld : (now i : ℕ) (d : Db) → IsHeld d → IsHeld (recover_queued now i d).1
  unfolding recover_queued
  recover_queued-IsHeld now i d h = elim (Option-cases (find_job i d)) [
    | inl e ↦ rw e h
    | inr (j, e) ↦ elim (Bool-cases (is_status j.status JobStatus.queued)) [
      | inr other ↦ rw (e, other) h
      | inl q ↦
          let y = requeued_job now j in
          rw (e, q)
            (roll_back-keeps IsHeld d _ h (
              >>=-keeps IsHeld (release_capacity now y) (λ _. refresh_scheduler_state now j.tenant)
                (record d { jobs = save job_pk y d.jobs }) (release-IsHeld now y d refl h)
                (λ _ e h'. refresh-IsHeld now j.tenant e h')))
    ]
  ]

  module _ (now : ℕ) (d : Db) (j : Job) (self : find_job j.id d ≡ some j) (h : IsHeld d) where
    cancel_queued-IsHeld : IsHeld (roll_back d (cancel_in now j JobStatus.queued d)).1
    unfolding cancel_in release_capacity release_overlaps
    cancel_queued-IsHeld =
        let less = leave-Held to_text d.jobs d.locks h (cancelled_job now j) refl in
        elim (Option-cases (find_state j.tenant d)) [
          | inl e ↦ rw e h
          | inr (s, e) ↦ elim (Bool-cases (s.active_reservations == 0)) [
            | inl z ↦ rw (e, z) less
            | inr n ↦ rw (e, n) less
          ]
        ]

    cancel_in-IsHeld : (s : JobStatus) → j.status ≡ s → IsHeld (roll_back d (cancel_in now j s d)).1
    unfolding cancel_in
    cancel_in-IsHeld JobStatus.succeeded e = h
    cancel_in-IsHeld JobStatus.failed_final e = h
    cancel_in-IsHeld JobStatus.cancelled e = h
    cancel_in-IsHeld JobStatus.waiting e =
        rest-Held to_text d.jobs d.locks h (cancelled_job now j) refl
    cancel_in-IsHeld JobStatus.retry_wait e =
        rest-Held to_text d.jobs d.locks h (cancelled_job now j) refl
    cancel_in-IsHeld JobStatus.executing e =
        keep-Held to_text d.jobs d.locks h j (cancel_requested_job now j) self refl refl refl
          (ground arith)
    cancel_in-IsHeld JobStatus.cancel_requested e =
        keep-Held to_text d.jobs d.locks h j (touched_job now j) self refl refl refl (ground arith)
    cancel_in-IsHeld JobStatus.queued e = cancel_queued-IsHeld

  pub cancel_job-IsHeld : (now i : ℕ) (d : Db) → IsHeld d → IsHeld (cancel_job now i d).1
  unfolding cancel_job
  cancel_job-IsHeld now i d h = elim (Option-cases (find_job i d)) [
    | inl e ↦ rw e h
    | inr (j, e) ↦
        rw e (cancel_in-IsHeld now d j (find-key job_pk i j.id d.jobs e refl) h j.status refl)
  ]
