-- ===== src/Capacity/Moves.antt =====
-- How a job takes a slot, keeps it, and gives it back, as changes of rows that keep the balance.
use mt_jobs.Base.{
  ℕ, true, false, none, some, List, [], ◌∷◌, ◌++◌, ◌≡◌, ◌<◌, ◌+◌, ◌-◌, ◌==◌, ◌&&◌, bit, count,
  reject, arith, if◌then◌else◌,
}
use mt_jobs.Base.Table.{
  save, find-save, find-append, count-save, count-reject, count-append, IsKeyed-save,
  IsKeyed-append,
}
use mt_jobs.Models.Job.{Job}
use mt_jobs.Models.Reservation.{JobExecutionReservation}
use mt_jobs.Models.Tenant.{Tenant}
use mt_jobs.Store.Db.{Db, find_job, find_state, find_tenant, job_pk}
use mt_jobs.Capacity.Balance.{
  IsBalanced, holds, works, occupies, of_tenant, reserves, runs, active_of,
}
use mt_jobs.Capacity.Release.{reserved_by}

reserves-reject :
    (k t i : ℕ) (xs : List JobExecutionReservation)
    → count (reserves k t) (reject (reserved_by i) xs)
      ≡ (if k == i then 0 else count (reserves k t) xs)
unfolding count reject
reserves-reject k t i [] = ground arith
reserves-reject k t i (x ∷ xs) = ground (arith, reserves-reject k t i xs)

module _ (d d' : Db) (j j' : Job) (here : find_job j'.id d ≡ some j) (same : j'.tenant ≡ j.tenant)
    (tenants : d'.tenants ≡ d.tenants) (jobs : d'.jobs ≡ save job_pk j' d.jobs) where
  find_job-saved : (k : ℕ) → find_job k d' ≡ (if j'.id == k then some j' else find_job k d)
  find_job-saved k = rw jobs (find-save job_pk k j' j d.jobs here)

  count-saved :
      (t : ℕ)
      → count (occupies t) d'.jobs + bit (occupies t j)
        ≡ count (occupies t) d.jobs + bit (occupies t j')
  count-saved t = rw jobs (count-save job_pk (occupies t) j' j d.jobs here)

  find_tenant-kept : (t : ℕ) → find_tenant t d' ≡ find_tenant t d
  find_tenant-kept t = rw tenants

  -- A job that holds a slot leaves it: its reservation goes, the counter falls, no attempt runs.
  pub leave-IsBalanced :
      holds j.status ≡ true
      → holds j'.status ≡ false
      → works j'.status ≡ false
      → d'.reservations ≡ reject (reserved_by j'.id) d.reservations
      → ((t : ℕ) → active_of (find_state t d') ≡ active_of (find_state t d) - bit (j.tenant == t))
      → ((k : ℕ)
          → count (runs k) d'.attempts ≡ (if k == j'.id then 0 else count (runs k) d.attempts))
      → IsBalanced d
      → IsBalanced d'
  leave-IsBalanced h h' w' res act att b = record {
    owned = λ k t.
        rw res
          (ground (arith, reserves-reject k t j'.id d.reservations, find_job-saved k, b.owned k t));
    counted = λ t. rw res (
        ground (
          arith,
          act t,
          b.counted t,
          count-reject (of_tenant t) (reserved_by j'.id) d.reservations,
          b.owned j'.id t,
        ));
    running = λ k. ground (arith, att k, find_job-saved k, b.running k);
    load = λ t. rw res (
        ground (
          arith,
          count-saved t,
          b.load t,
          count-reject (of_tenant t) (reserved_by j'.id) d.reservations,
          b.owned j'.id t,
        ));
    within = λ t tenant e. ground (arith, act t, b.within t tenant, find_tenant-kept t);
    keyed = rw jobs (IsKeyed-save job_pk j' d.jobs b.keyed);
  }

  -- A job that keeps its slot, or has none before and after, may start or end an attempt.
  pub work-IsBalanced :
      holds j.status ≡ holds j'.status
      → d'.reservations ≡ d.reservations
      → ((t : ℕ) → active_of (find_state t d') ≡ active_of (find_state t d))
      → ((k : ℕ)
          → count (runs k) d'.attempts + bit (j'.id == k && works j.status)
            ≡ count (runs k) d.attempts + bit (j'.id == k && works j'.status))
      → IsBalanced d
      → IsBalanced d'
  work-IsBalanced h res act att b = record {
    owned = λ k t. rw res (ground (arith, find_job-saved k, b.owned k t, b.owned j'.id t));
    counted = λ t. rw res (ground (arith, act t, b.counted t));
    running = λ k. ground (arith, att k, find_job-saved k, b.running k, b.running j'.id);
    load = λ t. rw res (ground (arith, count-saved t, b.load t));
    within = λ t tenant e. ground (arith, act t, b.within t tenant, find_tenant-kept t);
    keyed = rw jobs (IsKeyed-save job_pk j' d.jobs b.keyed);
  }

  -- A job takes a slot of its tenant while the counter is below the limit.
  pub enter-IsBalanced :
      (r : JobExecutionReservation)
      → holds j.status ≡ false
      → holds j'.status ≡ true
      → works j.status ≡ works j'.status
      → r.job ≡ j'.id
      → r.tenant ≡ j.tenant
      → d'.reservations ≡ d.reservations ++ r ∷ []
      → d'.attempts ≡ d.attempts
      → ((t : ℕ) → active_of (find_state t d') ≡ active_of (find_state t d) + bit (j.tenant == t))
      → ((tenant : Tenant)
          → find_tenant j.tenant d ≡ some tenant
          → active_of (find_state j.tenant d) < tenant.max_concurrent_jobs)
      → IsBalanced d
      → IsBalanced d'
  enter-IsBalanced r h h' w rj rt res att act room b = record {
    owned = λ k t. rw res (
        ground (
          arith,
          count-append (reserves k t) d.reservations r,
          find_job-saved k,
          b.owned k t,
          b.owned j'.id t,
        ));
    counted = λ t.
        rw res (ground (arith, act t, b.counted t, count-append (of_tenant t) d.reservations r));
    running = λ k. rw att (ground (arith, find_job-saved k, b.running k, b.running j'.id));
    load = λ t.
        rw res
          (ground (arith, count-saved t, b.load t, count-append (of_tenant t) d.reservations r));
    within =
        λ t tenant e. ground (arith, act t, b.within t tenant, find_tenant-kept t, room tenant);
    keyed = rw jobs (IsKeyed-save job_pk j' d.jobs b.keyed);
  }

-- A new job has no slot.
pub create-IsBalanced :
    (d d' : Db) (j : Job)
    → find_job j.id d ≡ none
    → holds j.status ≡ false
    → works j.status ≡ false
    → d'.tenants ≡ d.tenants
    → d'.jobs ≡ d.jobs ++ j ∷ []
    → d'.reservations ≡ d.reservations
    → d'.attempts ≡ d.attempts
    → d'.scheduler_states ≡ d.scheduler_states
    → IsBalanced d
    → IsBalanced d'
create-IsBalanced d d' j new h w tenants jobs res att states b = record {
  owned = λ k t. rw (res, jobs) (ground (arith, find-append job_pk k j d.jobs new, b.owned k t));
  counted = λ t. rw (res, states) (b.counted t);
  running = λ k. rw (att, jobs) (ground (arith, find-append job_pk k j d.jobs new, b.running k));
  load = λ t. rw (res, jobs) (ground (arith, b.load t, count-append (occupies t) d.jobs j));
  within = λ t. rw (states, tenants) (b.within t);
  keyed = rw jobs (IsKeyed-append job_pk j d.jobs new b.keyed);
}

-- What leaves jobs alone, and the counts of attempts, reservations and slots.
pub same-IsBalanced :
    (d d' : Db)
    → d'.tenants ≡ d.tenants
    → d'.jobs ≡ d.jobs
    → ((i t : ℕ) → count (reserves i t) d'.reservations ≡ count (reserves i t) d.reservations)
    → ((t : ℕ) → count (of_tenant t) d'.reservations ≡ count (of_tenant t) d.reservations)
    → ((i : ℕ) → count (runs i) d'.attempts ≡ count (runs i) d.attempts)
    → ((t : ℕ) → active_of (find_state t d') ≡ active_of (find_state t d))
    → IsBalanced d
    → IsBalanced d'
same-IsBalanced d d' tenants jobs res held att act b = record {
  owned = λ k t. rw (res k t, jobs) (b.owned k t);
  counted = λ t. rw (act t, held t) (b.counted t);
  running = λ k. rw (att k, jobs) (b.running k);
  load = λ t. rw (held t, jobs) (b.load t);
  within = λ t tenant e. rw (act t) (b.within t tenant (rw tenants at e));
  keyed = rw jobs b.keyed;
}
