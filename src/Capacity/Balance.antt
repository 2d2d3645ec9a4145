-- ===== src/Capacity/Balance.antt =====
-- The invariant of the slots, and how single rows change its parts.
use mt_jobs.Base.{ℕ, Bool, true, false, Option, none, some, ◌≡◌, ◌≤◌, ◌==◌, ◌&&◌, bit, count}
use mt_jobs.Base.Table.{IsKeyed}
use mt_jobs.Models.Job.{Job, JobStatus}
use mt_jobs.Models.Attempt.{JobAttempt, is_running}
use mt_jobs.Models.Reservation.{JobExecutionReservation}
use mt_jobs.Models.SchedulerState.{TenantSchedulerState}
use mt_jobs.Models.Tenant.{Tenant}
use mt_jobs.Store.Db.{Db, find_job, find_state, find_tenant, job_pk}

-- The statuses in which a job holds a slot of its tenant.
abbrev pub holds : JobStatus → Bool
holds JobStatus.queued = true
holds JobStatus.executing = true
holds JobStatus.cancel_requested = true
holds _ = false

-- The statuses in which a worker runs the job.
abbrev pub works : JobStatus → Bool
works JobStatus.executing = true
works JobStatus.cancel_requested = true
works _ = false

abbrev pub occupies : ℕ → Job → Bool
occupies t j = j.tenant == t && holds j.status

abbrev pub of_tenant : ℕ → JobExecutionReservation → Bool
of_tenant t r = r.tenant == t

abbrev pub reserves : ℕ → ℕ → JobExecutionReservation → Bool
reserves i t r = r.job == i && r.tenant == t

abbrev pub runs : ℕ → JobAttempt → Bool
runs i a = a.job == i && is_running a.status

abbrev pub slots_of : ℕ → Option Job → ℕ
slots_of t none = 0
slots_of t (some j) = bit (occupies t j)

abbrev pub workers_of : Option Job → ℕ
workers_of none = 0
workers_of (some j) = bit (works j.status)

abbrev pub active_of : Option TenantSchedulerState → ℕ
active_of none = 0
active_of (some s) = s.active_reservations

pub record IsBalanced (d : Db) : Type 0 where
  pub owned : (i t : ℕ) → count (reserves i t) d.reservations ≡ slots_of t (find_job i d)
  pub counted : (t : ℕ) → active_of (find_state t d) ≡ count (of_tenant t) d.reservations
  pub running : (i : ℕ) → count (runs i) d.attempts ≡ workers_of (find_job i d)
  pub load : (t : ℕ) → count (occupies t) d.jobs ≡ count (of_tenant t) d.reservations
  pub within :
      (t : ℕ) (tenant : Tenant)
      → find_tenant t d ≡ some tenant
      → active_of (find_state t d) ≤ tenant.max_concurrent_jobs
  pub keyed : IsKeyed job_pk d.jobs
