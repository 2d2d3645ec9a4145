-- ===== src/System/Frame/Dispatch.antt =====
-- What a call of the dispatcher (jobs/services/dispatcher.py) keeps: it leaves the database alone, or it
-- reserves a job, with or without a lock.
use mt_jobs.Base.{
  ℕ, String, Bool, some, false, All, List, [], ◌∷◌, ◌≡◌, ◌⊎◌, refl, leb, Option-cases, Bool-cases,
  inl, inr,
}
use mt_jobs.Models.Json.{Json}
use mt_jobs.Models.Job.{Job}
use mt_jobs.Models.SchedulerState.{TenantSchedulerState}
use mt_jobs.Domain.Payload.{payload_get}
use mt_jobs.Domain.Exceptions.{Result-cases}
use mt_jobs.Store.Exec.{pure, roll_back, ◌>>=◌}
use mt_jobs.Store.Db.{Db, find_state, find_tenant}
use mt_jobs.Services.Dispatcher.{dispatch_next, dispatch_first, reserve_job, candidates}
use mt_jobs.Capacity.Dispatch.{with_lock, is_locked, acquire_if_asked-Claims}

-- The database in which the job is reserved.
abbrev pub IsBefore : ℕ → Db → Job → Db → Type 0
IsBefore now d job e =
    (e ≡ d) ⊎ ((k : String) × (is_locked d now job k ≡ false) × (e ≡ with_lock now job k d))

-- What each candidate is known to be may depend on the scheduler state.
module _ {κ} (P : Db → Type κ) (Known : TenantSchedulerState → Job → Type 0) (now : ℕ) (d : Db)
    (h : P d)
    (reserves : (s : TenantSchedulerState) (job : Job) (e : Db)
      → Known s job
      → IsBefore now d job e
      → P (roll_back d ((reserve_job now job s >>= λ j. pure (some j)) e)).1) where
  dispatch_first-keeps :
      (to_text : Json → String) (s : TenantSchedulerState) (jobs : List Job)
      → All (Known s) jobs
      → P (roll_back d (dispatch_first to_text now s jobs d)).1
  unfolding dispatch_first
  dispatch_first-keeps to_text s [] a = h
  dispatch_first-keeps to_text s (job ∷ rest) (c, a) =
      let ih = dispatch_first-keeps to_text s rest a in
      elim (Result-cases (payload_get job.payload "overlap_key")) [
        | inl (x, e) ↦ rw (e, dispatch_first) h
        | inr (key, e) ↦ elim (acquire_if_asked-Claims to_text now job key d) [
          | inl (_, skip) ↦ rw (e, dispatch_first, skip) ih
          | inr (inl (_, free)) ↦ rw (e, dispatch_first, free) (reserves s job d c (inl refl))
          | inr (inr (k, _, none_locked, free)) ↦
              rw (e, dispatch_first, free)
                (reserves s job (with_lock now job k d) c (inr (k, none_locked, refl)))
        ]
      ]

  pub dispatch_known-keeps :
      (to_text : Json → String) (locked : ℕ → Bool) (i : ℕ)
      → ((s : TenantSchedulerState)
          → find_state i d ≡ some s
          → All (Known s) (candidates locked now i d.jobs))
      → P (dispatch_next to_text locked now i d).1
  unfolding dispatch_next
  dispatch_known-keeps to_text locked i known = elim (Option-cases (find_state i d)) [
    | inl e ↦ rw e h
    | inr (s, e) ↦ elim (Option-cases (find_tenant s.tenant d)) [
      | inl missing ↦ rw (e, missing) h
      | inr (tenant, f) ↦ elim (Bool-cases (leb tenant.max_concurrent_jobs s.active_reservations)) [
        | inl full ↦ rw (e, f, full) h
        | inr below ↦
            rw (e, f, below)
              (dispatch_first-keeps to_text s (candidates locked now i d.jobs) (known s e))
      ]
    ]
  ]

All-unit : (jobs : List Job) → All (λ j. Unit {0}) jobs
All-unit [] = tt
All-unit (j ∷ jobs) = (tt, All-unit jobs)

pub dispatch_next-keeps {κ} :
    (P : Db → Type κ) (now : ℕ) (d : Db)
    → P d
    → ((s : TenantSchedulerState) (job : Job) (e : Db)
        → IsBefore now d job e
        → P (roll_back d ((reserve_job now job s >>= λ j. pure (some j)) e)).1)
    → (to_text : Json → String) (locked : ℕ → Bool) (i : ℕ)
    → P (dispatch_next to_text locked now i d).1
dispatch_next-keeps P now d h reserves to_text locked i =
    dispatch_known-keeps P (λ s j. Unit) now d h (λ s job e _. reserves s job e) to_text locked i
      (λ s _. All-unit (candidates locked now i d.jobs))
