-- ===== src/Lifecycle/Moves.antt =====
-- The changes that the services make to one row, and histories of a table.
use mt_jobs.Base.{ℕ, String, Bool, true, false, some, List, [], ◌∷◌, ◌++◌, ◌≡◌, any}
use mt_jobs.Base.Table.{find, save}
use mt_jobs.Models.Json.{Json}
use mt_jobs.Models.Job.{Job, JobStatus}
use mt_jobs.Store.Columns.{is_storable}
use mt_jobs.Store.Db.{job_pk, jobs_conflict}
use mt_jobs.Services.Dispatcher.{queued_job}
use mt_jobs.Services.Execution.{
  executing_job, succeeded_job, retrying_job, failed_job, retry_delays,
}
use mt_jobs.Services.Retry.{promoted_job}
use mt_jobs.Services.Cancellation.{cancelled_job, cancel_requested_job, touched_job}
use mt_jobs.Services.Reconciliation.{requeued_job}

-- The statuses in which `cancel_job` cancels at once.
abbrev pub cancels_at_once : JobStatus → Bool
cancels_at_once JobStatus.waiting = true
cancels_at_once JobStatus.retry_wait = true
cancels_at_once JobStatus.queued = true
cancels_at_once _ = false

-- One change of a row. `ends` says in which statuses an attempt may end the job: the code itself asks
-- for none. `starts` says whether jobs are dispatched.
pub data Move (ends : JobStatus → Bool) (starts : Bool) (x : Job) : Job → Type 0 where
  dispatches :
      (now : ℕ)
      → starts ≡ true
      → x.status ≡ JobStatus.waiting
      → Move ends starts x (queued_job now x)
  claims : (now : ℕ) → x.status ≡ JobStatus.queued → Move ends starts x (executing_job now x)
  completes :
      (now : ℕ) (result : Json)
      → ends x.status ≡ true
      → Move ends starts x (succeeded_job now result x)
  retries :
      (now delay : ℕ) (message : String)
      → ends x.status ≡ true
      → retry_delays x.attempt_count ≡ some delay
      → Move ends starts x (retrying_job now delay message x)
  gives_up :
      (now : ℕ) (message : String)
      → ends x.status ≡ true
      → Move ends starts x (failed_job now message x)
  promotes : (now : ℕ) → x.status ≡ JobStatus.retry_wait → Move ends starts x (promoted_job now x)
  requeues : (now : ℕ) → x.status ≡ JobStatus.queued → Move ends starts x (requeued_job now x)
  cancels : (now : ℕ) → cancels_at_once x.status ≡ true → Move ends starts x (cancelled_job now x)
  asks :
      (now : ℕ) → x.status ≡ JobStatus.executing → Move ends starts x (cancel_requested_job now x)
  touches :
      (now : ℕ) → x.status ≡ JobStatus.cancel_requested → Move ends starts x (touched_job now x)

-- A history of the table: rows change by moves, and new rows wait.
pub data Edits (ends : JobStatus → Bool) (starts : Bool) (xs : List Job) : List Job → Type 0 where
  start : Edits ends starts xs xs
  moves :
      {ys : List Job} (x y : Job)
      → Edits ends starts xs ys
      → find job_pk x.id ys ≡ some x
      → Move ends starts x y
      → Edits ends starts xs (save job_pk y ys)
  adds :
      {ys : List Job} (y : Job)
      → Edits ends starts xs ys
      → y.status ≡ JobStatus.waiting
      → y.attempt_count ≡ 0
      → any (jobs_conflict y) ys ≡ false
      → is_storable y ≡ true
      → Edits ends starts xs (ys ++ y ∷ [])

pub Edits-trans :
    {ends : JobStatus → Bool} {starts : Bool} {xs ys zs : List Job}
    → Edits ends starts xs ys
    → Edits ends starts ys zs
    → Edits ends starts xs zs
Edits-trans e Edits.start = e
Edits-trans e (Edits.moves x y f here m) = Edits.moves x y (Edits-trans e f) here m
Edits-trans e (Edits.adds y f w z free fit) = Edits.adds y (Edits-trans e f) w z free fit

-- One move, from where the table stands.
pub one_move :
    {ends : JobStatus → Bool} {starts : Bool} (xs : List Job) (x y : Job)
    → find job_pk x.id xs ≡ some x
    → Move ends starts x y
    → Edits ends starts xs (save job_pk y xs)
one_move xs x y here m = Edits.moves x y Edits.start here m
