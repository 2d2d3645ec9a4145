-- ===== src/Capacity/Cancel.antt =====
-- `cancel_job` (jobs/services/cancellation.py) and `recover_queued`
-- (jobs/services/reconciliation.py).
use mt_jobs.Base.{
  ℕ, false, some, ◌≡◌, refl, ◌==◌, count, arith, if◌then◌else◌, Option-cases, Bool-cases, inl, inr,
}
use mt_jobs.Base.Table.{save, find-key}
use mt_jobs.Models.Job.{Job, JobStatus, is_status}
use mt_jobs.Store.Exec.{roll_back}
use mt_jobs.Store.Db.{Db, find_job, job_pk}
use mt_jobs.Services.Cancellation.{
  cancel_job, cancel_in, cancelled_job, cancel_requested_job, touched_job,
}
use mt_jobs.Services.Reconciliation.{recover_queued, requeued_job}
use mt_jobs.Capacity.Balance.{IsBalanced, holds, works, runs}
use mt_jobs.Capacity.Release.{released, release_capacity-eq, active_of-release_state}
use mt_jobs.Capacity.Moves.{leave-IsBalanced, work-IsBalanced}
use mt_jobs.Capacity.Finish.{slot_state, release_succeeds}
use mt_jobs.Capacity.Refresh.{refresh-eq, refresh-IsBalanced}

module _ (now : ℕ) (d : Db) (j : Job) (self : find_job j.id d ≡ some j) (b : IsBalanced d) where
  -- No attempt of a job runs that no worker runs.
  pub idle_ends :
      works j.status ≡ false
      → (k : ℕ) → count (runs k) d.attempts ≡ (if k == j.id then 0 else count (runs k) d.attempts)
  idle_ends w k = ground (arith, b.running j.id)

  -- A change of status that neither takes nor frees a slot.
  pub restatus-IsBalanced :
      (j' : Job)
      → j'.id ≡ j.id
      → j'.tenant ≡ j.tenant
      → holds j.status ≡ holds j'.status
      → works j.status ≡ works j'.status
      → IsBalanced (record d { jobs = save job_pk j' d.jobs })
  restatus-IsBalanced j' id tenant h w =
      work-IsBalanced d (record d { jobs = save job_pk j' d.jobs }) j j'
        (find-key job_pk j.id j'.id d.jobs self id) tenant refl refl h refl (λ t. refl)
        (λ k. ground arith) b

  cancel_in-IsBalanced :
      (s : JobStatus) → j.status ≡ s → IsBalanced (roll_back d (cancel_in now j s d)).1
  unfolding cancel_in
  cancel_in-IsBalanced JobStatus.succeeded e = b
  cancel_in-IsBalanced JobStatus.failed_final e = b
  cancel_in-IsBalanced JobStatus.cancelled e = b
  cancel_in-IsBalanced JobStatus.waiting e =
      restatus-IsBalanced (cancelled_job now j) refl refl (ground arith) (ground arith)
  cancel_in-IsBalanced JobStatus.retry_wait e =
      restatus-IsBalanced (cancelled_job now j) refl refl (ground arith) (ground arith)
  cancel_in-IsBalanced JobStatus.executing e =
      restatus-IsBalanced (cancel_requested_job now j) refl refl (ground arith) (ground arith)
  cancel_in-IsBalanced JobStatus.cancel_requested e =
      restatus-IsBalanced (touched_job now j) refl refl refl refl
  cancel_in-IsBalanced JobStatus.queued e =
      let (s, f, _) = slot_state d j.id j self (ground arith) b in
      let j' = cancelled_job now j in
      rw (release_capacity-eq now j' d s f) (
        leave-IsBalanced d (record (released now j' s d) { jobs = save job_pk j' d.jobs }) j j' self
          refl refl refl (ground arith) refl refl refl
          (λ t. active_of-release_state now t j.tenant s d.scheduler_states f)
          (idle_ends (ground arith)) b)

pub cancel_job-IsBalanced : (now i : ℕ) (d : Db) → IsBalanced d → IsBalanced (cancel_job now i d).1
unfolding cancel_job
cancel_job-IsBalanced now i d b = elim (Option-cases (find_job i d)) [
  | inl e ↦ rw e b
  | inr (j, e) ↦
      rw e (cancel_in-IsBalanced now d j (find-key job_pk i j.id d.jobs e refl) b j.status refl)
]

pub recover_queued-IsBalanced :
    (now i : ℕ) (d : Db) → IsBalanced d → IsBalanced (recover_queued now i d).1
unfolding recover_queued
recover_queued-IsBalanced now i d b = elim (Option-cases (find_job i d)) [
  | inl e ↦ rw e b
  | inr (j, e) ↦ elim (Bool-cases (is_status j.status JobStatus.queued)) [
    | inr other ↦ rw (e, other) b
    | inl q ↦
        let self = find-key job_pk i j.id d.jobs e refl in
        let j' = requeued_job now j in
        let mid : Db = record d { jobs = save job_pk j' d.jobs } in
        let (s, run, bal) =
          release_succeeds now d mid j j' self refl (ground arith) refl refl refl refl refl refl
            (idle_ends now d j self b (ground arith)) b in
        rw (e, q, run, refresh-eq now j.tenant (released now j' s mid))
          (refresh-IsBalanced now j.tenant (released now j' s mid) bal)
  ]
]
