-- ===== src/Capacity/Release.antt =====
-- `release_capacity` as a function of the rows that it finds.
use mt_jobs.Base.{
  ℕ, Bool, some, List, ◌≡◌, refl, ◌-◌, ◌==◌, bit, reject, arith, if◌then◌else◌, inl, inr,
  Bool-cases,
}
use mt_jobs.Base.Table.{find, save, find-save, find-pk}
use mt_jobs.Models.Job.{Job}
use mt_jobs.Models.Overlap.{JobOverlapLock}
use mt_jobs.Models.Reservation.{JobExecutionReservation}
use mt_jobs.Models.SchedulerState.{TenantSchedulerState}
use mt_jobs.Domain.Exceptions.{ok}
use mt_jobs.Store.Db.{Db, find_state, state_pk}
use mt_jobs.Services.Execution.{release_capacity, released_state}
use mt_jobs.Capacity.Balance.{active_of}

abbrev pub reserved_by : ℕ → JobExecutionReservation → Bool
reserved_by i r = r.job == i

abbrev pub locked_by : ℕ → JobOverlapLock → Bool
locked_by i l = l.job == i

unfoldable pub release_state :
    ℕ → TenantSchedulerState → List TenantSchedulerState → List TenantSchedulerState
release_state now s states =
    if s.active_reservations == 0 then states else save state_pk (released_state now s) states

abbrev pub released : ℕ → Job → TenantSchedulerState → Db → Db
released now job s d = record d {
  reservations = reject (reserved_by job.id) d.reservations;
  locks = reject (locked_by job.id) d.locks;
  scheduler_states = release_state now s d.scheduler_states;
}

pub release_capacity-eq :
    (now : ℕ) (job : Job) (d : Db) (s : TenantSchedulerState)
    → find_state job.tenant d ≡ some s
    → release_capacity now job d ≡ (ok tt, released now job s d)
unfolding release_capacity release_state
release_capacity-eq now job d s e = elim (Bool-cases (s.active_reservations == 0)) [
  | inl z ↦ rw (e, z) refl
  | inr z ↦ rw (e, z) refl
]

pub active_of-release_state :
    (now t k : ℕ) (s : TenantSchedulerState) (states : List TenantSchedulerState)
    → find state_pk k states ≡ some s
    → active_of (find state_pk t (release_state now s states))
      ≡ active_of (find state_pk t states) - bit (k == t)
unfolding release_state
active_of-release_state now t k s states e =
    let key = find-pk state_pk k states e in
    ground (arith, find-save state_pk t (released_state now s) s states)
