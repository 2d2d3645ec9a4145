-- ===== src/Workers/Reaper.antt =====
-- The reaper on single rows: `reconcile_attempt` and `recover_queued` of jobs/services/reconciliation.py.
use mt_jobs.Base.{
  ℕ, true, false, some, none, List, ◌≡◌, ◌==◌, refl, ◌∙◌, String, Option, Option-cases, Bool-cases,
  inl, inr, eq→==, arith, if◌then◌else◌,
}
use mt_jobs.Base.Table.{save, find-key, find-save, find-pk}
use mt_jobs.Models.Job.{Job, JobStatus, is_status}
use mt_jobs.Models.Attempt.{JobAttempt, FailureType, is_running}
use mt_jobs.Domain.Exceptions.{Result, ok, err}
use mt_jobs.Store.Exec.{roll_back}
use mt_jobs.Store.Db.{Db, find_job, find_attempt, find_state, job_pk, attempt_pk}
use mt_jobs.Services.Execution.{release_capacity}
use mt_jobs.Services.Failure.{finalize_failure, finalize, delay_of}
use mt_jobs.Services.Reconciliation.{
  reconcile_attempt, recover_queued, abandoned_attempt, requeued_job,
}
use mt_jobs.Capacity.Balance.{IsBalanced}
use mt_jobs.Capacity.Release.{released}
use mt_jobs.Capacity.Finish.{release_succeeds}
use mt_jobs.Capacity.Cancel.{idle_ends}
use mt_jobs.Capacity.Refresh.{refresh-eq}
use mt_jobs.Capacity.Fail.{reconcile_attempt-Settled}

attempts-release_capacity :
    (now : ℕ) (j : Job) (d : Db) → (release_capacity now j d).1.attempts ≡ d.attempts
unfolding release_capacity
attempts-release_capacity now j d = elim (Option-cases (find_state j.tenant d)) [
  | inl e ↦ rw e
  | inr (s, e) ↦ elim (Bool-cases (s.active_reservations == 0)) [
    | inl z ↦ rw (e, z)
    | inr z ↦ rw (e, z)
  ]
]

attempts-finalize :
    (now : ℕ) (t : FailureType) (m : String) (j : Job) (o : Option ℕ) (d : Db)
    → (finalize now t m j o d).1.attempts ≡ d.attempts
unfolding finalize
attempts-finalize now t m j none d = attempts-release_capacity now _ _
attempts-finalize now t m j (some delay) d = attempts-release_capacity now _ _

attempts-roll_back :
    {A : Type 0} (d : Db) (x : Result A × Db) (a : A) (rows : List JobAttempt)
    → (roll_back d x).0 ≡ ok a
    → x.1.attempts ≡ rows
    → (roll_back d x).1.attempts ≡ rows
attempts-roll_back d (ok b, e) a rows h k = k
attempts-roll_back d (err b, e) a rows h k = cc h

attempts-finalize_failure :
    (now i : ℕ) (t : FailureType) (m : String) (d : Db)
    → (finalize_failure now i t m d).1.attempts ≡ d.attempts
unfolding finalize_failure
attempts-finalize_failure now i t m d = elim (Option-cases (find_job i d)) [
  | inl e ↦ rw e
  | inr (j, e) ↦ rw e (
      kept (finalize now t m j (delay_of t j.attempt_count) d)
        (attempts-finalize now t m j (delay_of t j.attempt_count) d))
]
  where
    kept :
        (x : Result (Unit {0}) × Db)
        → x.1.attempts ≡ d.attempts
        → (roll_back d x).1.attempts ≡ d.attempts
    kept (ok a, e) h = h
    kept (err b, e) h = refl

-- An attempt of the table, and one that no longer runs.
abbrev pub Known : ℕ → Db → Type 0
Known k d = (a : JobAttempt) × (find_attempt k d ≡ some a)

abbrev pub HasEnded : ℕ → Db → Type 0
HasEnded k d = (a : JobAttempt) × (find_attempt k d ≡ some a) × (is_running a.status ≡ false)

-- No attempt goes, and none runs again.
abbrev pub Attends : Db → Db → Type 0
Attends d e = ((k : ℕ) → Known k d → Known k e) × ((k : ℕ) → HasEnded k d → HasEnded k e)

pub Attends-same : (d e : Db) → e.attempts ≡ d.attempts → Attends d e
Attends-same d e p = ((λ k (a, h). (a, rw p h)), λ k (a, h, s). (a, rw p h, s))

module _ (now i : ℕ) (d : Db) (b : IsBalanced d) where
  module _ (a : JobAttempt) (here : find_attempt i d ≡ some a)
      (live : is_running a.status ≡ true) where
    reaped-attempts :
        (reconcile_attempt now i d).1.attempts
        ≡ save attempt_pk (abandoned_attempt now a) d.attempts
    unfolding reconcile_attempt
    reaped-attempts =
        let (j, _, done) = reconcile_attempt-Settled d i a here live b now in
        let mid : Db = record d {
          attempts = save attempt_pk (abandoned_attempt now a) d.attempts;
        } in
        rw (here, live)
          (attempts-roll_back d
            (finalize_failure now a.job FailureType.infrastructure "Worker lease expired" mid) tt
            mid.attempts (rw (here, live) at done.0)
            (attempts-finalize_failure now a.job FailureType.infrastructure "Worker lease expired"
              mid))

    reaped-found :
        (k : ℕ)
        → find_attempt k (reconcile_attempt now i d).1
          ≡ (if a.id == k then some (abandoned_attempt now a) else find_attempt k d)
    reaped-found k = rw reaped-attempts (
        find-save attempt_pk k (abandoned_attempt now a) a d.attempts
          (find-key attempt_pk i a.id d.attempts here refl))

    reaped-HasEnded : HasEnded i (reconcile_attempt now i d).1
    reaped-HasEnded =
        let key = eq→== a.id i (find-pk attempt_pk i d.attempts here) in
        (abandoned_attempt now a, reaped-found i ∙ rw key refl, refl)

    reaped-Attends : Attends d (reconcile_attempt now i d).1
    reaped-Attends = (
      λ k (x, f). elim (Bool-cases (a.id == k)) [
        | inl e ↦ (abandoned_attempt now a, reaped-found k ∙ rw e refl)
        | inr e ↦ (x, reaped-found k ∙ rw e f)
      ],
      λ k (x, f, s). elim (Bool-cases (a.id == k)) [
        | inl e ↦ (abandoned_attempt now a, reaped-found k ∙ rw e refl, refl)
        | inr e ↦ (x, reaped-found k ∙ rw e f, s)
      ],
    )

  -- The reaper on an attempt of the table raises nothing, and the attempt has ended.
  pub reconcile_attempt-Sweeps :
      Known i d
      → ((reconcile_attempt now i d).0 ≡ ok tt)
        × IsBalanced (reconcile_attempt now i d).1
        × HasEnded i (reconcile_attempt now i d).1
        × Attends d (reconcile_attempt now i d).1
  reconcile_attempt-Sweeps (a, e) = elim (Bool-cases (is_running a.status)) [
    | inr ended ↦
        let idle : reconcile_attempt now i d ≡ (ok tt, d) =
          unfold reconcile_attempt in rw (e, ended) refl in
        rw idle (refl, b, (a, e, ended), Attends-same d d refl)
    | inl live ↦
        let (j, _, done) = reconcile_attempt-Settled d i a e live b now in
        (done.0, done.1, reaped-HasEnded a e live, reaped-Attends a e live)
  ]

  -- `recover_queued` on a job of the table raises nothing and leaves the attempts alone.
  pub recover_queued-succeeds :
      (j : Job)
      → find_job i d ≡ some j
      → ((recover_queued now i d).0 ≡ ok tt) × ((recover_queued now i d).1.attempts ≡ d.attempts)
  unfolding recover_queued
  recover_queued-succeeds j e = elim (Bool-cases (is_status j.status JobStatus.queued)) [
    | inr other ↦ rw (e, other) (refl, refl)
    | inl q ↦
        let self = find-key job_pk i j.id d.jobs e refl in
        let j' = requeued_job now j in
        let mid : Db = record d { jobs = save job_pk j' d.jobs } in
        let (s, run, bal) =
          release_succeeds now d mid j j' self refl (ground arith) refl refl refl refl refl refl
            (idle_ends now d j self b (ground arith)) b in
        rw (e, q, run, refresh-eq now j.tenant (released now j' s mid)) (refl, refl)
  ]
