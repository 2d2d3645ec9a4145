-- ===== src/Capacity/Dispatch.antt =====
-- `dispatch_next` (jobs/services/dispatcher.py) and the slots of its tenant.
use mt_jobs.Base.{
  ℕ, suc, String, Bool, true, false, not, Option, none, some, List, [], ◌∷◌, ◌++◌, ◌≡◌, ◌⊎◌, refl,
  sym, ◌<◌, ◌+◌, ◌==◌, ◌&&◌, leb, any, All, arith, if◌then◌else◌, Bool-cases, Option-cases, inl,
  inr, ==→eq,
}
use mt_jobs.Base.Table.{
  save, find-pk, find-key, find-save, IsKeyed-found, All-filter, All-take, All-map,
}
use mt_jobs.Base.Sort.{All-order_by}
use mt_jobs.Models.Json.{Json, truthy}
use mt_jobs.Models.Job.{Job, JobStatus}
use mt_jobs.Models.Overlap.{OverlapScope, JobOverlapLock, locks_conflict}
use mt_jobs.Models.SchedulerState.{TenantSchedulerState}
use mt_jobs.Models.Reservation.{JobExecutionReservation}
use mt_jobs.Models.Tenant.{Tenant}
use mt_jobs.Domain.Payload.{payload_get}
use mt_jobs.Domain.Exceptions.{ok, Result-cases}
use mt_jobs.Store.Exec.{pure, roll_back, ◌>>=◌}
use mt_jobs.Store.Db.{Db, find_job, find_state, find_tenant, job_pk, state_pk}
use mt_jobs.Services.SchedulerState.{before, is_ready}
use mt_jobs.Services.Overlap.{acquire_overlap, minutes}
use mt_jobs.Services.Dispatcher.{
  dispatch_next, dispatch_first, new_event, acquire_if_asked, reserve_job, candidates,
  candidate_limit, queued_job, dispatched_state, new_reservation,
}
use mt_jobs.Capacity.Balance.{IsBalanced}
use mt_jobs.Capacity.Moves.{enter-IsBalanced, same-IsBalanced}

-- The row of a lock that a job asks for.
abbrev pub wanted_lock : ℕ → ℕ → Job → String → JobOverlapLock
wanted_lock id now job key = record {
  id = id;
  job = job.id;
  tenant = some job.tenant;
  scope = OverlapScope.tenant;
  resource_key = key;
  lease_token = suc id;
  expires_at = now + minutes 5;
  created_at = now;
}

abbrev pub with_lock : ℕ → Job → String → Db → Db
with_lock now job key d = record d {
  next_uuid = suc (suc d.next_uuid);
  locks = d.locks ++ wanted_lock d.next_uuid now job key ∷ [];
}

-- Whether another row holds the lock that a job asks for.
abbrev pub is_locked : Db → ℕ → Job → String → Bool
is_locked d now job key = any (locks_conflict (wanted_lock d.next_uuid now job key)) d.locks

pub acquire_overlap-eq :
    (now : ℕ) (job : Job) (key : String) (d : Db)
    → acquire_overlap now job key OverlapScope.tenant d ≡ (
        if is_locked d now job key
        then (ok none, d)
        else (ok (some (wanted_lock d.next_uuid now job key)), with_lock now job key d))
unfolding acquire_overlap
acquire_overlap-eq now job key d = elim (Bool-cases (is_locked d now job key)) [
  | inl e ↦ rw e
  | inr e ↦ rw e
]

-- The resource key that the value of `overlap_key` asks for.
abbrev pub key_of : (Json → String) → Option Json → Option String
key_of to_text none = none
key_of to_text (some v) = if truthy v then some (to_text v) else none

-- Another row holds the lock that a job asks for.
abbrev pub AsksInVain : (Json → String) → ℕ → Db → Job → Option Json → Type 0
AsksInVain to_text now d job key =
    (v : Json) × (key ≡ some v) × (truthy v ≡ true) × (is_locked d now job (to_text v) ≡ true)

-- The job may not run and nothing changes, or it may, with its lock if it asks for one.
abbrev pub Claims : (Json → String) → ℕ → Job → Option Json → Db → Type 0
Claims to_text now job key d =
    (AsksInVain to_text now d job key × (acquire_if_asked to_text now job key d ≡ (ok false, d)))
    ⊎ ((key_of to_text key ≡ none) × (acquire_if_asked to_text now job key d ≡ (ok true, d)))
    ⊎ ((k : String) × (key_of to_text key ≡ some k)
        × (is_locked d now job k ≡ false)
        × (acquire_if_asked to_text now job key d ≡ (ok true, with_lock now job k d)))

pub acquire_if_asked-Claims :
    (to_text : Json → String) (now : ℕ) (job : Job) (key : Option Json) (d : Db)
    → Claims to_text now job key d
unfolding acquire_if_asked
acquire_if_asked-Claims to_text now job none d = inr (inl (refl, refl))
acquire_if_asked-Claims to_text now job (some v) d = elim (Bool-cases (truthy v)) [
  | inr e ↦ inr (inl (rw e refl, rw e refl))
  | inl e ↦ elim (Bool-cases (is_locked d now job (to_text v))) [
    | inl held ↦ inl ((v, refl, e, held), rw (e, acquire_overlap-eq, held) refl)
    | inr free ↦ inr (inr (to_text v, rw e refl, free, rw (e, acquire_overlap-eq, free) refl))
  ]
]

abbrev pub is_reserved : ℕ → JobExecutionReservation → Bool
is_reserved i r = r.job == i

-- The database after `_reserve_job`.
abbrev pub reserved_db : ℕ → Job → TenantSchedulerState → Db → Db
reserved_db now job s d = record d {
  next_uuid = suc (suc (suc d.next_uuid));
  reservations = d.reservations ++ new_reservation d.next_uuid (suc d.next_uuid) now job s ∷ [];
  jobs = save job_pk (queued_job now job) d.jobs;
  scheduler_states = save state_pk (dispatched_state now s) d.scheduler_states;
  outbox = d.outbox ++ new_event (suc (suc d.next_uuid)) now job ∷ [];
}

pub reserve_job-eq :
    (now : ℕ) (job : Job) (s : TenantSchedulerState) (d : Db)
    → any (is_reserved job.id) d.reservations ≡ false
    → reserve_job now job s d ≡ (ok (queued_job now job), reserved_db now job s d)
unfolding reserve_job
reserve_job-eq now job s d free = rw free refl

-- A waiting job of a tenant below its limit.
abbrev pub IsCandidate : TenantSchedulerState → Db → Job → Type 0
IsCandidate s d job =
    (find_job job.id d ≡ some job) × (job.status ≡ JobStatus.waiting) × (job.tenant ≡ s.tenant)

module _ (now : ℕ) (s : TenantSchedulerState) (d : Db) (counter : find_state s.tenant d ≡ some s)
    (room : (tenant : Tenant)
      → find_tenant s.tenant d ≡ some tenant
      → s.active_reservations < tenant.max_concurrent_jobs)
    (b : IsBalanced d) where
  reserved-IsBalanced : (job : Job) → IsCandidate s d job → IsBalanced (reserved_db now job s d)
  reserved-IsBalanced job (here, w, own) =
      enter-IsBalanced d (reserved_db now job s d) job (queued_job now job) here refl refl refl
        (new_reservation d.next_uuid (suc d.next_uuid) now job s) (ground arith) refl (ground arith)
        refl (sym own) refl refl
        (λ t. ground (
          arith,
          find-save state_pk t (dispatched_state now s) s d.scheduler_states counter,
          ==→eq s.tenant t,
          own,
        ))
        (λ tenant e. rw (own, counter) (room tenant (rw own at e))) b

module _ (to_text : Json → String) (now : ℕ) (s : TenantSchedulerState) (d : Db)
    (counter : find_state s.tenant d ≡ some s)
    (room : (tenant : Tenant)
      → find_tenant s.tenant d ≡ some tenant
      → s.active_reservations < tenant.max_concurrent_jobs)
    (b : IsBalanced d) where
  with_lock-IsBalanced : (job : Job) (k : String) → IsBalanced (with_lock now job k d)
  with_lock-IsBalanced job k =
      same-IsBalanced d (with_lock now job k d) refl refl (λ i t. refl) (λ t. refl) (λ i. refl)
        (λ t. refl) b

  -- The rest of the transaction from a database in which the job may run.
  ends-IsBalanced :
      (e : Db)
      → IsBalanced e
      → find_state s.tenant e ≡ some s
      → ((tenant : Tenant)
          → find_tenant s.tenant e ≡ some tenant
          → s.active_reservations < tenant.max_concurrent_jobs)
      → (job : Job) → IsCandidate s e job
      → IsBalanced (roll_back d ((reserve_job now job s >>= λ j. pure (some j)) e)).1
  unfolding reserve_job
  ends-IsBalanced e be f r job c = elim (Bool-cases (any (is_reserved job.id) e.reservations)) [
    | inl clash ↦ rw clash b
    | inr free ↦ rw free (reserved-IsBalanced now s e f r be job c)
  ]

  pub dispatch_first-IsBalanced :
      (jobs : List Job)
      → All (IsCandidate s d) jobs
      → IsBalanced (roll_back d (dispatch_first to_text now s jobs d)).1
  unfolding dispatch_first
  dispatch_first-IsBalanced [] a = b
  dispatch_first-IsBalanced (job ∷ rest) (c, a) =
      let ih = dispatch_first-IsBalanced rest a in
      elim (Result-cases (payload_get job.payload "overlap_key")) [
        | inl (x, e) ↦ rw (e, dispatch_first) b
        | inr (key, e) ↦ elim (acquire_if_asked-Claims to_text now job key d) [
          | inl (_, skip) ↦ rw (e, dispatch_first, skip) ih
          | inr (inl (_, free)) ↦
              rw (e, dispatch_first, free) (ends-IsBalanced d b counter room job c)
          | inr (inr (k, _, _, free)) ↦
              rw (e, dispatch_first, free)
                (ends-IsBalanced (with_lock now job k d) (with_lock-IsBalanced job k) counter room
                  job c)
        ]
      ]

-- The candidates of the query are waiting jobs of the tenant.
pub candidates-IsCandidate :
    (locked : ℕ → Bool) (now : ℕ) (s : TenantSchedulerState) (d : Db)
    → IsBalanced d
    → All (IsCandidate s d) (candidates locked now s.tenant d.jobs)
unfolding candidates
candidates-IsCandidate locked now s d b = All-take (IsCandidate s d) candidate_limit _ (
    All-order_by before (IsCandidate s d) _ (
      All-map _ (IsCandidate s d) _ (λ j (e, p). (e, ground arith, ground arith))
        (All-filter (λ j. find_job j.id d ≡ some j)
          (λ j. is_ready now s.tenant j && not (locked j.id)) d.jobs
          (IsKeyed-found job_pk d.jobs b.keyed))))

pub dispatch_next-IsBalanced :
    (to_text : Json → String) (locked : ℕ → Bool) (now i : ℕ) (d : Db)
    → IsBalanced d
    → IsBalanced (dispatch_next to_text locked now i d).1
unfolding dispatch_next
dispatch_next-IsBalanced to_text locked now i d b = elim (Option-cases (find_state i d)) [
  | inl e ↦ rw e b
  | inr (s, e) ↦ elim (Option-cases (find_tenant s.tenant d)) [
    | inl missing ↦ rw (e, missing) b
    | inr (tenant, f) ↦ elim (Bool-cases (leb tenant.max_concurrent_jobs s.active_reservations)) [
      | inl full ↦ rw (e, f, full) b
      | inr below ↦
          let key = find-pk state_pk i d.scheduler_states e in
          let counter = find-key state_pk i s.tenant d.scheduler_states e refl in
          rw (e, f, below, ← key)
            (dispatch_first-IsBalanced to_text now s d counter (λ t g. ground arith) b
              (candidates locked now s.tenant d.jobs) (candidates-IsCandidate locked now s d b))
    ]
  ]
]
