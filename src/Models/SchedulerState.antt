-- ===== src/Models/SchedulerState.antt =====
-- jobs/models/scheduler_state.py. The tenant is the primary key.
use mt_jobs.Base.{ℕ, Bool, Option}

pub record TenantSchedulerState : Type 0 where
  pub tenant : ℕ
  pub active_reservations : ℕ
  pub has_ready_work : Bool
  pub highest_ready_priority : Option ℕ
  pub next_ready_at : Option ℕ
  pub last_dispatched_at : Option ℕ
  pub updated_at : ℕ
