-- ===== src/Lifecycle/Services/Dispatch.antt =====
-- `dispatch_next` as a history of the job table.
use mt_jobs.Base.{
  ℕ, String, Bool, true, some, List, [], ◌∷◌, ◌≡◌, refl, leb, any, All, Option-cases, Bool-cases,
  inl, inr,
}
use mt_jobs.Base.Table.{find-pk}
use mt_jobs.Models.Json.{Json}
use mt_jobs.Models.Job.{Job, JobStatus}
use mt_jobs.Models.SchedulerState.{TenantSchedulerState}
use mt_jobs.Domain.Payload.{payload_get}
use mt_jobs.Domain.Exceptions.{Result-cases}
use mt_jobs.Store.Exec.{pure, roll_back, ◌>>=◌}
use mt_jobs.Store.Db.{Db, find_state, find_tenant, state_pk}
use mt_jobs.Services.Dispatcher.{dispatch_next, dispatch_first, reserve_job, candidates, queued_job}
use mt_jobs.Capacity.Balance.{IsBalanced}
use mt_jobs.Capacity.Dispatch.{
  IsCandidate, is_reserved, with_lock, acquire_if_asked-Claims, candidates-IsCandidate,
}
use mt_jobs.Lifecycle.Moves.{Move, Edits, one_move}
use mt_jobs.Lifecycle.Services.Finish.{History}

module _ (ends : JobStatus → Bool) (now : ℕ) (d : Db) where
  ends-History :
      (s : TenantSchedulerState) (e : Db) (job : Job)
      → e.jobs ≡ d.jobs
      → IsCandidate s d job
      → History ends true now d (roll_back d ((reserve_job now job s >>= λ j. pure (some j)) e)).1
  unfolding reserve_job
  ends-History s e job same (here, w, _) =
      elim (Bool-cases (any (is_reserved job.id) e.reservations)) [
        | inl clash ↦ rw clash Edits.start
        | inr free ↦
            rw (free, same)
              (one_move d.jobs job (queued_job now job) here (Move.dispatches now refl w))
      ]

  dispatch_first-History :
      (to_text : Json → String) (s : TenantSchedulerState) (jobs : List Job)
      → All (IsCandidate s d) jobs
      → History ends true now d (roll_back d (dispatch_first to_text now s jobs d)).1
  unfolding dispatch_first
  dispatch_first-History to_text s [] a = Edits.start
  dispatch_first-History to_text s (job ∷ rest) (c, a) =
      let ih = dispatch_first-History to_text s rest a in
      elim (Result-cases (payload_get job.payload "overlap_key")) [
        | inl (x, e) ↦ rw (e, dispatch_first) Edits.start
        | inr (key, e) ↦ elim (acquire_if_asked-Claims to_text now job key d) [
          | inl (_, skip) ↦ rw (e, dispatch_first, skip) ih
          | inr (inl (_, free)) ↦ rw (e, dispatch_first, free) (ends-History s d job refl c)
          | inr (inr (k, _, _, free)) ↦
              rw (e, dispatch_first, free) (ends-History s (with_lock now job k d) job refl c)
        ]
      ]

  pub dispatch_next-History :
      (to_text : Json → String) (locked : ℕ → Bool) (i : ℕ)
      → IsBalanced d
      → History ends true now d (dispatch_next to_text locked now i d).1
  unfolding dispatch_next
  dispatch_next-History to_text locked i b = elim (Option-cases (find_state i d)) [
    | inl e ↦ rw e Edits.start
    | inr (s, e) ↦ elim (Option-cases (find_tenant s.tenant d)) [
      | inl missing ↦ rw (e, missing) Edits.start
      | inr (tenant, f) ↦ elim (Bool-cases (leb tenant.max_concurrent_jobs s.active_reservations)) [
        | inl full ↦ rw (e, f, full) Edits.start
        | inr below ↦
            let key = find-pk state_pk i d.scheduler_states e in
            rw (e, f, below, ← key)
              (dispatch_first-History to_text s (candidates locked now s.tenant d.jobs)
                (candidates-IsCandidate locked now s d b))
      ]
    ]
  ]
