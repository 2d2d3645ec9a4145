-- ===== src/System/Frame/Ends.antt =====
-- The services that end an attempt or free a slot (jobs/services).
use mt_jobs.Base.{
  ℕ, String, Option, some, none, ◌==◌, Option-cases, Bool-cases, inl, inr, refl, arith,
}
use mt_jobs.Models.Json.{Json}
use mt_jobs.Models.Job.{Job, JobStatus, is_status}
use mt_jobs.Models.Attempt.{FailureType, is_running}
use mt_jobs.Domain.Exceptions.{Exception, str}
use mt_jobs.Store.Exec.{roll_back-keeps, >>=-keeps}
use mt_jobs.Store.Db.{Db, find_job, find_attempt, find_state}
use mt_jobs.Services.SchedulerState.{refresh_scheduler_state}
use mt_jobs.Services.Overlap.{release_overlaps}
use mt_jobs.Services.Execution.{complete_job, fail_job, settle, release_capacity, retry_after}
use mt_jobs.Services.Failure.{fail_attempt, finalize_failure, finalize, delay_of}
use mt_jobs.Services.Cancellation.{cancel_job, cancel_in}
use mt_jobs.Services.Reconciliation.{reconcile_attempt, recover_queued, requeued_job}
use mt_jobs.Capacity.Refresh.{refresh-eq}
use mt_jobs.System.Frame.{Frame, JobRows, Kept-same, Kept-saved}

module _ {κ} (P : Db → Type κ) (frame : Frame P) where
  open frame use {other as same}

  pub refresh-keeps : (now t : ℕ) (d : Db) → P d → P (refresh_scheduler_state now t d).1
  refresh-keeps now t d h =
      rw (refresh-eq now t d)
        (same d _ refl refl refl (Kept-same d _ (omega arith) refl (JobRows.same refl)) h)

  release-keeps : (now : ℕ) (j : Job) (d : Db) → P d → P (release_capacity now j d).1
  unfolding release_capacity release_overlaps
  release-keeps now j d h = elim (Option-cases (find_state j.tenant d)) [
    | inl e ↦ rw e (
        frame.release j.id d _ refl refl refl (Kept-same d _ (omega arith) refl (JobRows.same refl))
          h)
    | inr (s, e) ↦ elim (Bool-cases (s.active_reservations == 0)) [
      | inl z ↦
          rw (e, z)
            (frame.release j.id d _ refl refl refl
              (Kept-same d _ (omega arith) refl (JobRows.same refl)) h)
      | inr n ↦
          rw (e, n)
            (frame.release j.id d _ refl refl refl
              (Kept-same d _ (omega arith) refl (JobRows.same refl)) h)
    ]
  ]

  settle-keeps :
      (now : ℕ) (t : FailureType) (m : String) (j : Job) (o : Option ℕ) (d : Db)
      → P d
      → P (settle now t m j o d).1
  unfolding settle
  settle-keeps now t m j none d h =
      release-keeps now _ _
        (same d _ refl refl refl (Kept-same d _ (omega arith) refl (JobRows.saved _ refl)) h)
  settle-keeps now t m j (some delay) d h =
      release-keeps now _ _
        (same d _ refl refl refl (Kept-same d _ (omega arith) refl (JobRows.saved _ refl)) h)

  finalize-keeps :
      (now : ℕ) (t : FailureType) (m : String) (j : Job) (o : Option ℕ) (d : Db)
      → P d
      → P (finalize now t m j o d).1
  unfolding finalize
  finalize-keeps now t m j none d h =
      release-keeps now _ _
        (same d _ refl refl refl (Kept-same d _ (omega arith) refl (JobRows.saved _ refl)) h)
  finalize-keeps now t m j (some delay) d h =
      release-keeps now _ _
        (same d _ refl refl refl (Kept-same d _ (omega arith) refl (JobRows.saved _ refl)) h)

  finalize_failure-keeps :
      (now i : ℕ) (t : FailureType) (m : String) (d : Db) → P d → P (finalize_failure now i t m d).1
  unfolding finalize_failure
  finalize_failure-keeps now i t m d h = elim (Option-cases (find_job i d)) [
    | inl e ↦ rw e h
    | inr (j, e) ↦
        rw e (roll_back-keeps P d _ h (finalize-keeps now t m j (delay_of t j.attempt_count) d h))
  ]

  pub fail_job-keeps :
      (now i : ℕ) (exc : Exception) (t : FailureType) (traceback : String) (d : Db)
      → P d
      → P (fail_job now i exc t traceback d).1
  unfolding fail_job
  fail_job-keeps now i exc t traceback d h = elim (Option-cases (find_attempt i d)) [
    | inl e ↦ rw e h
    | inr (a, e) ↦ elim (Option-cases (find_job a.job d)) [
      | inl f ↦ rw (e, f) h
      | inr (j, f) ↦
          rw (e, f)
            (roll_back-keeps P d _ h (
              settle-keeps now t (str exc) j (retry_after t j.attempt_count) _ (
                same d _ refl refl refl
                  (Kept-saved d _ i a _ (omega arith) refl e refl refl refl (JobRows.same refl))
                  h)))
    ]
  ]

  pub fail_attempt-keeps :
      (now i : ℕ) (exc : Exception) (t : FailureType) (d : Db)
      → P d
      → P (fail_attempt now i exc t d).1
  unfolding fail_attempt
  fail_attempt-keeps now i exc t d h = elim (Option-cases (find_attempt i d)) [
    | inl e ↦ rw e h
    | inr (a, e) ↦ rw e (
        roll_back-keeps P d _ h (
          finalize_failure-keeps now a.job t (str exc) _ (
            same d _ refl refl refl
              (Kept-saved d _ i a _ (omega arith) refl e refl refl refl (JobRows.same refl)) h)))
  ]

  pub reconcile_attempt-keeps : (now i : ℕ) (d : Db) → P d → P (reconcile_attempt now i d).1
  unfolding reconcile_attempt
  reconcile_attempt-keeps now i d h = elim (Option-cases (find_attempt i d)) [
    | inl e ↦ rw e h
    | inr (a, e) ↦ elim (Bool-cases (is_running a.status)) [
      | inr ended ↦ rw (e, ended) h
      | inl live ↦
          rw (e, live)
            (roll_back-keeps P d _ h (
              finalize_failure-keeps now a.job FailureType.infrastructure "Worker lease expired" _ (
                same d _ refl refl refl
                  (Kept-saved d _ i a _ (omega arith) refl e refl refl refl (JobRows.same refl))
                  h)))
    ]
  ]

  pub complete_job-keeps :
      (now i : ℕ) (result : Json) (d : Db) → P d → P (complete_job now i result d).1
  unfolding complete_job
  complete_job-keeps now i result d h = elim (Option-cases (find_attempt i d)) [
    | inl e ↦ rw e h
    | inr (a, e) ↦ elim (Option-cases (find_job a.job d)) [
      | inl f ↦ rw (e, f) h
      | inr (j, f) ↦
          rw (e, f)
            (roll_back-keeps P d _ h (
              release-keeps now _ _ (
                same d _ refl refl refl
                  (Kept-saved d _ i a _ (omega arith) refl e refl refl refl (JobRows.saved _ refl))
                  h)))
    ]
  ]

  pub recover_queued-keeps : (now i : ℕ) (d : Db) → P d → P (recover_queued now i d).1
  unfolding recover_queued
  recover_queued-keeps now i d h = elim (Option-cases (find_job i d)) [
    | inl e ↦ rw e h
    | inr (j, e) ↦ elim (Bool-cases (is_status j.status JobStatus.queued)) [
      | inr other ↦ rw (e, other) h
      | inl q ↦
          rw (e, q)
            (roll_back-keeps P d _ h (
              >>=-keeps P (release_capacity now (requeued_job now j))
                (λ _. refresh_scheduler_state now j.tenant) _
                (release-keeps now (requeued_job now j) _ (
                  same d _ refl refl refl (Kept-same d _ (omega arith) refl (JobRows.saved _ refl))
                    h))
                (λ _ e h'. refresh-keeps now j.tenant e h')))
    ]
  ]

  cancel_in-keeps : (now : ℕ) (j : Job) (s : JobStatus) (d : Db) → P d → P (cancel_in now j s d).1
  unfolding cancel_in
  cancel_in-keeps now j JobStatus.succeeded d h = h
  cancel_in-keeps now j JobStatus.failed_final d h = h
  cancel_in-keeps now j JobStatus.cancelled d h = h
  cancel_in-keeps now j JobStatus.waiting d h =
      same d _ refl refl refl (Kept-same d _ (omega arith) refl (JobRows.saved _ refl)) h
  cancel_in-keeps now j JobStatus.retry_wait d h =
      same d _ refl refl refl (Kept-same d _ (omega arith) refl (JobRows.saved _ refl)) h
  cancel_in-keeps now j JobStatus.executing d h =
      same d _ refl refl refl (Kept-same d _ (omega arith) refl (JobRows.saved _ refl)) h
  cancel_in-keeps now j JobStatus.cancel_requested d h =
      same d _ refl refl refl (Kept-same d _ (omega arith) refl (JobRows.saved _ refl)) h
  cancel_in-keeps now j JobStatus.queued d h =
      >>=-keeps P (release_capacity now _) _ d (release-keeps now _ d h) (λ _ e h'.
        same e _ refl refl refl (Kept-same e _ (omega arith) refl (JobRows.saved _ refl)) h')

  pub cancel_job-keeps : (now i : ℕ) (d : Db) → P d → P (cancel_job now i d).1
  unfolding cancel_job
  cancel_job-keeps now i d h = elim (Option-cases (find_job i d)) [
    | inl e ↦ rw e h
    | inr (j, e) ↦ rw e (roll_back-keeps P d _ h (cancel_in-keeps now j j.status d h))
  ]
