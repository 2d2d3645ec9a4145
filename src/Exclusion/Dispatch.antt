-- ===== src/Exclusion/Dispatch.antt =====
-- The locks under the services of the dispatcher, which takes them, and of the heartbeat (jobs/services).
use mt_jobs.Base.{ℕ, String, Bool, some, any, filter, head?, Option-cases, Bool-cases, inl, inr}
use mt_jobs.Models.Json.{Json}
use mt_jobs.Models.Job.{Job}
use mt_jobs.Models.SchedulerState.{TenantSchedulerState}
use mt_jobs.Store.Exec.{pure, roll_back, ◌>>=◌}
use mt_jobs.Store.Db.{Db}
use mt_jobs.Services.Dispatcher.{dispatch_next, reserve_job}
use mt_jobs.Services.Heartbeat.{heartbeat, renew_lease, is_running_attempt}
use mt_jobs.Capacity.Dispatch.{is_reserved}
use mt_jobs.System.Frame.Dispatch.{IsBefore, dispatch_next-keeps}
use mt_jobs.Exclusion.Rows.{IsExclusive, with_lock-IsExclusive}

pub heartbeat-IsExclusive : (now i : ℕ) (d : Db) → IsExclusive d → IsExclusive (heartbeat now i d).1
unfolding heartbeat renew_lease
heartbeat-IsExclusive now i d h =
    elim (Option-cases (head? (filter (is_running_attempt i) d.attempts))) [
      | inl e ↦ rw e h
      | inr (a, e) ↦ rw e h
    ]

module _ (now : ℕ) (d : Db) (h : IsExclusive d) where
  reserve-IsExclusive :
      (s : TenantSchedulerState) (job : Job) (e : Db)
      → IsExclusive e
      → IsExclusive (roll_back d ((reserve_job now job s >>= λ j. pure (some j)) e)).1
  unfolding reserve_job
  reserve-IsExclusive s job e k = elim (Bool-cases (any (is_reserved job.id) e.reservations)) [
    | inl clash ↦ rw clash h
    | inr free ↦ rw free k
  ]

  before-IsExclusive : (job : Job) (e : Db) → IsBefore now d job e → IsExclusive e
  before-IsExclusive job e (inl p) = rw p h
  before-IsExclusive job e (inr (k, none_locked, p)) =
      rw p (with_lock-IsExclusive now job k d none_locked h)

  pub dispatch_next-IsExclusive :
      (to_text : Json → String) (locked : ℕ → Bool) (i : ℕ)
      → IsExclusive (dispatch_next to_text locked now i d).1
  dispatch_next-IsExclusive =
      dispatch_next-keeps IsExclusive now d h
        (λ s job e b. reserve-IsExclusive s job e (before-IsExclusive job e b))
