-- ===== src/Capacity/Attempts.antt =====
-- An attempt that runs, and its job (jobs/services/execution.py, jobs/services/reconciliation.py).
use mt_jobs.Base.{
  ℕ, true, false, some, ◌≡◌, refl, ◌==◌, count, arith, if◌then◌else◌, Option-cases, inl, inr, eq→==,
}
use mt_jobs.Base.Table.{save, find-pk, find-key, count-save, count-find-le}
use mt_jobs.Models.Job.{Job}
use mt_jobs.Models.Attempt.{JobAttempt, is_running}
use mt_jobs.Store.Db.{Db, find_job, find_attempt, job_pk, attempt_pk}
use mt_jobs.Capacity.Balance.{IsBalanced, holds, works, runs}

works→holds : (j : Job) → works j.status ≡ true → holds j.status ≡ true
works→holds j h = ground arith

module _ (d : Db) (i : ℕ) (a : JobAttempt) (here : find_attempt i d ≡ some a)
    (live : is_running a.status ≡ true) (b : IsBalanced d) where
  runs_self : runs a.job a ≡ true
  runs_self = rw (eq→== a.job a.job refl, live) refl

  -- The job of a running attempt is there, runs, and holds a slot.
  pub attempt_job :
      (j : Job) × (find_job a.job d ≡ some j)
      × (find_job j.id d ≡ some j)
      × (j.id ≡ a.job)
      × (works j.status ≡ true)
      × (holds j.status ≡ true)
  attempt_job = elim (Option-cases (find_job a.job d)) [
    | inl e ↦ absurd (
        ground (
          arith,
          b.running a.job,
          count-find-le attempt_pk (runs a.job) i d.attempts here,
          runs_self,
        ))
    | inr (j, e) ↦
        let key = find-pk job_pk a.job d.jobs e in
        let w : works j.status ≡ true = ground (
          arith,
          b.running a.job,
          count-find-le attempt_pk (runs a.job) i d.attempts here,
          runs_self,
        ) in
        (j, e, find-key job_pk a.job j.id d.jobs e refl, key, w, works→holds j w)
  ]

  -- The attempt is the only one of its job that runs, so none does when it has ended.
  pub attempt_ends :
      (a' : JobAttempt)
      → a'.id ≡ a.id
      → a'.job ≡ a.job
      → is_running a'.status ≡ false
      → (k : ℕ)
      → count (runs k) (save attempt_pk a' d.attempts)
        ≡ (if k == a.job then 0 else count (runs k) d.attempts)
  attempt_ends a' same job stop k =
      let at = find-key attempt_pk i a'.id d.attempts here same in
      let (j, e, _, _, w, _) = attempt_job in
      ground (arith, count-save attempt_pk (runs k) a' a d.attempts at, b.running a.job, e, w, live)
