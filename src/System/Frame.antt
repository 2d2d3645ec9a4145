-- ===== src/System/Frame.antt =====
-- Properties of the locks, the reservations, the outbox and the attempts. Most services leave the first
-- three tables alone or release the slot of a job, and all but a claim leave each attempt its number;
-- such a property is kept by all of them.
pub mod Dispatch
pub mod Claim
pub mod Ends
pub mod Others
use mt_jobs.Base.{
  ℕ, some, List, [], ◌∷◌, ◌++◌, ◌≡◌, ◌≤◌, ◌<◌, ◌==◌, ==→eq, sym, subst, reject, All, arith,
  Bool-cases, inl, inr,
}
use mt_jobs.Base.Table.{save, All-save, All-find, All-map, All-append}
use mt_jobs.Models.Job.{Job}
use mt_jobs.Models.Attempt.{JobAttempt}
use mt_jobs.Store.Db.{Db, find_attempt, attempt_pk, job_pk}
use mt_jobs.Capacity.Release.{reserved_by, locked_by}

-- An attempt whose id is below a bound, and whose number is at most what its job allows.
abbrev pub IsWithin : ℕ → (ℕ → ℕ) → JobAttempt → Type 0
IsWithin n cap a = (a.id < n) × (a.attempt_number ≤ cap a.job)

-- The jobs are the same, one is written over, or one is added with an id that was drawn.
pub data JobRows (d e : Db) : Type 0 where
  same : e.jobs ≡ d.jobs → JobRows d e
  saved : (y : Job) → e.jobs ≡ save job_pk y d.jobs → JobRows d e
  added : (y : Job) → e.jobs ≡ d.jobs ++ y ∷ [] → y.id < e.next_uuid → JobRows d e

-- Each job has an id that was drawn.
abbrev pub IsDrawn : ℕ → List Job → Type 0
IsDrawn n jobs = All (λ j. j.id < n) jobs

pub IsDrawn-save : (n : ℕ) (y : Job) (xs : List Job) → IsDrawn n xs → IsDrawn n (save job_pk y xs)
unfolding save
IsDrawn-save n y [] a = tt
IsDrawn-save n y (x ∷ xs) (h, a) = elim (Bool-cases (x.id == y.id)) [
  | inl e ↦ rw e ((let p = ==→eq x.id y.id e in rw p at h), a)
  | inr e ↦ rw e (h, IsDrawn-save n y xs a)
]

pub IsDrawn-le : (n m : ℕ) (xs : List Job) → n ≤ m → IsDrawn n xs → IsDrawn m xs
IsDrawn-le n m xs le a = All-map _ _ xs (λ x h. omega (arith, h, le)) a

JobRows-IsDrawn :
    (d e : Db)
    → d.next_uuid ≤ e.next_uuid
    → JobRows d e
    → IsDrawn d.next_uuid d.jobs
    → IsDrawn e.next_uuid e.jobs
JobRows-IsDrawn d e u (JobRows.same p) a = rw p (IsDrawn-le _ _ d.jobs u a)
JobRows-IsDrawn d e u (JobRows.saved y p) a =
    rw p (IsDrawn-save _ y d.jobs (IsDrawn-le _ _ d.jobs u a))
JobRows-IsDrawn d e u (JobRows.added y p k) a =
    rw p (All-append _ d.jobs y (IsDrawn-le _ _ d.jobs u a) k)

-- Attempts stay within their bounds, and the ids to come stay above those drawn.
pub record Kept (d e : Db) : Type 0 where
  pub uuids : d.next_uuid ≤ e.next_uuid
  pub attempts :
      (n : ℕ) (cap : ℕ → ℕ) → All (IsWithin n cap) d.attempts → All (IsWithin n cap) e.attempts
  pub jobs : IsDrawn d.next_uuid d.jobs → IsDrawn e.next_uuid e.jobs

pub Kept-same :
    (d e : Db) → d.next_uuid ≤ e.next_uuid → e.attempts ≡ d.attempts → JobRows d e → Kept d e
Kept-same d e u p rows = record {
  uuids = u;
  attempts = λ n cap a. rw p a;
  jobs = JobRows-IsDrawn d e u rows;
}

-- An attempt is written over by one of the same number.
pub Kept-saved :
    (d e : Db) (i : ℕ) (a y : JobAttempt)
    → d.next_uuid ≤ e.next_uuid
    → e.attempts ≡ save attempt_pk y d.attempts
    → find_attempt i d ≡ some a
    → y.id ≡ a.id
    → y.job ≡ a.job
    → y.attempt_number ≡ a.attempt_number
    → JobRows d e
    → Kept d e
Kept-saved d e i a y u p here x j k rows = record {
  uuids = u;
  jobs = JobRows-IsDrawn d e u rows;
  attempts = λ n cap all. rw p (
      All-save attempt_pk (IsWithin n cap) y d.attempts all
        (rw (x, j, k) (All-find attempt_pk (IsWithin n cap) i d.attempts all here)));
}

-- What a property has to be kept by.
pub record Frame {κ} (P : Db → Type κ) : Type κ where
  pub other :
      (d e : Db)
      → e.locks ≡ d.locks
      → e.reservations ≡ d.reservations
      → e.outbox ≡ d.outbox
      → Kept d e
      → P d
      → P e
  pub release :
      (i : ℕ) (d e : Db)
      → e.locks ≡ reject (locked_by i) d.locks
      → e.reservations ≡ reject (reserved_by i) d.reservations
      → e.outbox ≡ d.outbox
      → Kept d e
      → P d
      → P e
