-- ===== src/Services/SchedulerState.antt =====
-- jobs/services/scheduler_state.py
use mt_jobs.Base.{
  ℕ, Bool, true, false, Option, none, some, List, ◌==◌, ◌&&◌, ◌||◌, ltb, leb, filter, head?,
}
use mt_jobs.Base.Sort.{order_by}
use mt_jobs.Models.Job.{Job, JobStatus, is_status}
use mt_jobs.Models.SchedulerState.{TenantSchedulerState}
use mt_jobs.Store.Exec.{Exec, pure, gets, ◌>>=◌}
use mt_jobs.Store.Db.{Db, find_state, create_state, save_state}

-- `.filter(tenant_id=…, status=WAITING, available_at__lte=now)`
abbrev pub is_ready : ℕ → ℕ → Job → Bool
is_ready now tenant_id j =
    j.tenant == tenant_id && (is_status j.status JobStatus.waiting && leb j.available_at now)

abbrev pub is_waiting : ℕ → Job → Bool
is_waiting tenant_id j = j.tenant == tenant_id && is_status j.status JobStatus.waiting

-- `.order_by("priority", "ready_since")`
abbrev pub before : Job → Job → Bool
before a b =
    ltb a.priority b.priority || (a.priority == b.priority && leb a.ready_since b.ready_since)

abbrev pub available_before : Job → Job → Bool
available_before a b = leb a.available_at b.available_at

abbrev pub is_some : {A : Type 0} → Option A → Bool
is_some none = false
is_some (some a) = true

abbrev pub map? : {A B : Type 0} → (A → B) → Option A → Option B
map? f none = none
map? f (some a) = some (f a)

abbrev pub new_state : ℕ → ℕ → TenantSchedulerState
new_state now tenant_id = record {
  tenant = tenant_id;
  active_reservations = 0;
  has_ready_work = false;
  highest_ready_priority = none;
  next_ready_at = none;
  last_dispatched_at = none;
  updated_at = now;
}

abbrev state_or_new : ℕ → ℕ → Option TenantSchedulerState → Exec Db TenantSchedulerState
state_or_new now tenant_id none = create_state (new_state now tenant_id)
state_or_new now tenant_id (some s) = pure s

-- `TenantSchedulerState.objects.get_or_create(tenant_id=…)`
abbrev pub get_or_create_state : ℕ → ℕ → Exec Db TenantSchedulerState
get_or_create_state now tenant_id d = state_or_new now tenant_id (find_state tenant_id d) d

-- The first ready job in dispatch order.
unfoldable pub first_ready : ℕ → ℕ → List Job → Option Job
first_ready now tenant_id jobs = head? (order_by before (filter (is_ready now tenant_id) jobs))

unfoldable pub earliest_waiting : ℕ → List Job → Option ℕ
earliest_waiting tenant_id jobs =
    map? (λ (j : Job). j.available_at)
      (head? (order_by available_before (filter (is_waiting tenant_id) jobs)))

abbrev pub refreshed : ℕ → List Job → TenantSchedulerState → TenantSchedulerState
refreshed now jobs s =
    let first = first_ready now s.tenant jobs in
    record s {
      has_ready_work = is_some first;
      highest_ready_priority = map? (λ (j : Job). j.priority) first;
      next_ready_at = earliest_waiting s.tenant jobs;
      updated_at = now;
    }

unfoldable pub refresh_scheduler_state : ℕ → ℕ → Exec Db (Unit {0})
refresh_scheduler_state now tenant_id = do
  state ← get_or_create_state now tenant_id
  jobs ← gets (λ d. d.jobs)
  save_state (refreshed now jobs state)
