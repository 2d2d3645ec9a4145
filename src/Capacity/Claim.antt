-- ===== src/Capacity/Claim.antt =====
-- `claim_job` (jobs/services/execution.py).
use mt_jobs.Base.{ℕ, String, refl, any, arith, Option-cases, Bool-cases, inl, inr}
use mt_jobs.Base.Table.{find-key, count-append}
use mt_jobs.Models.Job.{JobStatus, is_status}
use mt_jobs.Store.Db.{Db, find_job, job_pk, attempts_conflict}
use mt_jobs.Services.Execution.{claim_job, executing_job, new_attempt}
use mt_jobs.Capacity.Balance.{IsBalanced, runs}
use mt_jobs.Capacity.Moves.{work-IsBalanced}

pub claim_job-IsBalanced :
    (now : ℕ) (host : String) (i : ℕ) (d : Db)
    → IsBalanced d
    → IsBalanced (claim_job now host i d).1
unfolding claim_job
claim_job-IsBalanced now host i d b = elim (Option-cases (find_job i d)) [
  | inl e ↦ rw e b
  | inr (j, e) ↦ elim (Bool-cases (is_status j.status JobStatus.queued)) [
    | inr other ↦ rw (e, other) b
    | inl q ↦
        let at = find-key job_pk i j.id d.jobs e refl in
        let j' = executing_job now j in
        let a = new_attempt d.next_uuid now host j' in
        elim (Bool-cases (any (attempts_conflict a) d.attempts)) [
          | inl clash ↦ rw (e, q, clash) b
          | inr free ↦
              rw (e, q, free)
                (work-IsBalanced d _ j j' at refl refl refl (ground arith) refl (λ t. refl)
                  (λ k. ground (arith, count-append (runs k) d.attempts a)) b)
        ]
  ]
]
