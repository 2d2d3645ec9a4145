-- ===== src/Capacity/Finish.antt =====
-- `release_capacity` (jobs/services/execution.py) on a job that holds a slot.
use mt_jobs.Base.{
  ℕ, true, false, some, ◌≡◌, refl, ◌<◌, ◌==◌, count, arith, if◌then◌else◌, Option-cases, inl, inr,
  eq→==,
}
use mt_jobs.Base.Table.{save, count-le}
use mt_jobs.Models.Job.{Job}
use mt_jobs.Models.SchedulerState.{TenantSchedulerState}
use mt_jobs.Domain.Exceptions.{ok}
use mt_jobs.Store.Db.{Db, find_job, find_state, job_pk}
use mt_jobs.Services.Execution.{release_capacity}
use mt_jobs.Capacity.Balance.{IsBalanced, holds, works, of_tenant, reserves, runs}
use mt_jobs.Capacity.Release.{released, release_capacity-eq, active_of-release_state}
use mt_jobs.Capacity.Moves.{leave-IsBalanced}

-- The tenant of a job that holds a slot has a counter, which is not 0.
pub slot_state :
    (d : Db) (i : ℕ) (j : Job)
    → find_job i d ≡ some j
    → holds j.status ≡ true
    → IsBalanced d
    → (s : TenantSchedulerState) × (find_state j.tenant d ≡ some s) × (0 < s.active_reservations)
slot_state d i j here h b = elim (Option-cases (find_state j.tenant d)) [
  | inl e ↦ absurd (
      ground (
        arith,
        b.counted j.tenant,
        b.owned i j.tenant,
        count-le (reserves i j.tenant) (of_tenant j.tenant) d.reservations (λ x. ground arith),
        eq→== j.tenant j.tenant refl,
      ))
  | inr (s, e) ↦ (
    s,
    e,
    ground (
      arith,
      b.counted j.tenant,
      b.owned i j.tenant,
      count-le (reserves i j.tenant) (of_tenant j.tenant) d.reservations (λ x. ground arith),
      eq→== j.tenant j.tenant refl,
    ),
  )
]

module _ (now : ℕ) (d e : Db) (j j' : Job) (here : find_job j'.id d ≡ some j)
    (same : j'.tenant ≡ j.tenant) (before : holds j.status ≡ true) (after : holds j'.status ≡ false)
    (idle : works j'.status ≡ false) (tenants : e.tenants ≡ d.tenants)
    (jobs : e.jobs ≡ save job_pk j' d.jobs) (reservations : e.reservations ≡ d.reservations)
    (states : e.scheduler_states ≡ d.scheduler_states)
    (ended : (k : ℕ)
      → count (runs k) e.attempts ≡ (if k == j'.id then 0 else count (runs k) d.attempts))
    (b : IsBalanced d) where
  pub release_succeeds :
      (s : TenantSchedulerState) × (release_capacity now j' e ≡ (ok tt, released now j' s e))
      × IsBalanced (released now j' s e)
  release_succeeds =
      let (s, f, p) = slot_state d j'.id j here before b in
      let g : find_state j'.tenant e ≡ some s = rw (states, same) f in
      (
        s,
        release_capacity-eq now j' e s g,
        leave-IsBalanced d (released now j' s e) j j' here same tenants jobs before after idle
            (rw reservations)
            (λ t. rw (states) (active_of-release_state now t j.tenant s d.scheduler_states f)) ended
            b,
      )
