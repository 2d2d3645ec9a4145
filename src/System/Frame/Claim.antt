-- ===== src/System/Frame/Claim.antt =====
-- What a claim (jobs/services/execution.py) keeps: it leaves the database alone, or it begins the next
-- attempt of a queued job.
use mt_jobs.Base.{
  ℕ, suc, String, some, [], ◌∷◌, ◌++◌, ◌≡◌, refl, any, Option-cases, Bool-cases, inl, inr,
}
use mt_jobs.Base.Table.{save}
use mt_jobs.Models.Job.{Job, JobStatus, is_status}
use mt_jobs.Store.Db.{Db, find_job, job_pk, attempts_conflict}
use mt_jobs.Services.Execution.{claim_job, start_attempt, executing_job, new_attempt}

abbrev pub begun_db : ℕ → String → Job → Db → Db
begun_db now hostname j d = record d {
  next_uuid = suc d.next_uuid;
  jobs = save job_pk (executing_job now j) d.jobs;
  attempts = d.attempts ++ new_attempt d.next_uuid now hostname (executing_job now j) ∷ [];
}

pub claim_job-keeps {κ} :
    (P : Db → Type κ) (now : ℕ) (hostname : String) (i : ℕ) (d : Db)
    → P d
    → ((j : Job) → find_job i d ≡ some j → P (begun_db now hostname j d))
    → P (claim_job now hostname i d).1
unfolding claim_job start_attempt
claim_job-keeps P now hostname i d h claims = elim (Option-cases (find_job i d)) [
  | inl e ↦ rw e h
  | inr (j, e) ↦ elim (Bool-cases (is_status j.status JobStatus.queued)) [
    | inr other ↦ rw (e, other) h
    | inl q ↦
        let a = new_attempt d.next_uuid now hostname (executing_job now j) in
        elim (Bool-cases (any (attempts_conflict a) d.attempts)) [
          | inl clash ↦ rw (e, q, clash) h
          | inr free ↦ rw (e, q, free) (claims j e)
        ]
  ]
]

-- A claim leaves the locks, the reservations and the outbox alone.
pub claim_job-tables :
    (now : ℕ) (hostname : String) (i : ℕ) (d : Db)
    → let e = (claim_job now hostname i d).1 in
      (e.locks ≡ d.locks) × (e.reservations ≡ d.reservations) × (e.outbox ≡ d.outbox)
claim_job-tables now hostname i d =
    claim_job-keeps
      (λ e. (e.locks ≡ d.locks) × (e.reservations ≡ d.reservations) × (e.outbox ≡ d.outbox)) now
      hostname i d (refl, refl, refl) (λ j e. (refl, refl, refl))
