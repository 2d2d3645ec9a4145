-- ===== src/Scheduling/Progress.antt =====
-- `dispatch_next` (jobs/services/dispatcher.py) finds work where there is some.
use mt_jobs.Base.{
  ℕ, String, Bool, true, false, not, Option, some, none, List, [], ◌∷◌, ◌≡◌, ◌≤◌, ◌<◌, ◌==◌, ◌&&◌,
  ◌⊎◌, refl, ◌∙◌, filter, count, leb, any, All, arith, Bool-cases, inl, inr,
}
use mt_jobs.Base.Table.{IsKeyed-found, All-find, All-filter, All-map}
use mt_jobs.Base.Queries.{All-selected, All-ordered, length-order_by, length-filter, take_all}
use mt_jobs.Base.Sort.{order_by, All-order_by}
use mt_jobs.Models.Json.{Json}
use mt_jobs.Models.Job.{Job, JobStatus}
use mt_jobs.Models.Tenant.{Tenant}
use mt_jobs.Models.Reservation.{JobExecutionReservation}
use mt_jobs.Models.SchedulerState.{TenantSchedulerState}
use mt_jobs.Domain.Payload.{payload_get}
use mt_jobs.Domain.Exceptions.{Result, ok}
use mt_jobs.Store.Exec.{pure, roll_back_ok, ◌>>=◌}
use mt_jobs.Store.Db.{Db, job_pk, find_job, find_state, find_tenant}
use mt_jobs.Services.SchedulerState.{before, is_ready}
use mt_jobs.Services.Dispatcher.{
  dispatch_next, dispatch_first, reserve_job, candidates, candidate_limit, queued_job,
}
use mt_jobs.Capacity.Balance.{IsBalanced, reserves}
use mt_jobs.Capacity.Dispatch.{acquire_if_asked-Claims, reserve_job-eq, is_reserved, with_lock}
use mt_jobs.Scheduling.Order.{IsBlocked}

not-reserved :
    (i : ℕ) (rs : List JobExecutionReservation)
    → ((t : ℕ) → count (reserves i t) rs ≡ 0)
    → any (is_reserved i) rs ≡ false
unfolding any count
not-reserved i [] h = refl
not-reserved i (r ∷ rs) h = elim (Bool-cases (r.job == i)) [
  | inl e ↦ absurd (ground (arith, h r.tenant, e))
  | inr e ↦ rw e (not-reserved i rs (λ t. ground (arith, h t)))
]

-- A waiting job holds no reservation.
waiting-not-reserved :
    (d : Db) (j : Job)
    → IsBalanced d
    → find_job j.id d ≡ some j
    → j.status ≡ JobStatus.waiting
    → any (is_reserved j.id) d.reservations ≡ false
waiting-not-reserved d j b e w =
    not-reserved j.id d.reservations (λ t. b.owned j.id t ∙ rw e (ground arith))

-- The payload can be asked for its overlap key.
abbrev pub HasKey : Job → Type 0
HasKey j = (key : Option Json) × (payload_get j.payload "overlap_key" ≡ ok key)

-- A call that took a job.
abbrev pub Takes : Result (Option Job) × Db → Type 0
Takes x = (r : Job) × (x.0 ≡ ok (some r))

abbrev IsFree : Db → Job → Type 0
IsFree d j = HasKey j × (any (is_reserved j.id) d.reservations ≡ false)

reserve-Takes :
    (now : ℕ) (job : Job) (s : TenantSchedulerState) (d : Db)
    → any (is_reserved job.id) d.reservations ≡ false
    → Takes ((reserve_job now job s >>= λ j. pure (some j)) d)
reserve-Takes now job s d free = (queued_job now job, rw (reserve_job-eq now job s d free) refl)

module _ (to_text : Json → String) (now : ℕ) (s : TenantSchedulerState) (d : Db) where
  dispatch_first-Takes :
      (jobs : List Job)
      → All (IsFree d) jobs
      → Takes (dispatch_first to_text now s jobs d)
        ⊎ (All (IsBlocked to_text now d) jobs
            × (dispatch_first to_text now s jobs d ≡ (ok none, d)))
  unfolding dispatch_first
  dispatch_first-Takes [] a = inr (tt, refl)
  dispatch_first-Takes (job ∷ rest) (((key, e), free), a) =
      elim (acquire_if_asked-Claims to_text now job key d) [
        | inl (vain, skip) ↦ elim (dispatch_first-Takes rest a) [
          | inl (r, h) ↦ inl (r, rw (dispatch_first, e, skip) h)
          | inr (blocked, h) ↦ inr (((key, e, vain), blocked), rw (dispatch_first, e, skip) h)
        ]
        | inr (inl (_, go)) ↦ inl (rw (dispatch_first, e, go) (reserve-Takes now job s d free))
        | inr (inr (k, _, _, go)) ↦
            inl (rw (dispatch_first, e, go) (reserve-Takes now job s (with_lock now job k d) free))
      ]

pub All-zip {ℓ κ} :
    {A : Type ℓ} (P Q : A → Type κ) (xs : List A) → All P xs → All Q xs → All (λ x. P x × Q x) xs
All-zip P Q [] a b = tt
All-zip P Q (x ∷ xs) a b = ((a.0, b.0), All-zip P Q xs a.1 b.1)

module _ (to_text : Json → String) (locked : ℕ → Bool) (now i : ℕ) (d : Db) where
  -- The jobs that the query selects.
  abbrev pub asks : Job → Bool
  asks j = is_ready now i j && not (locked j.id)

  ready-IsFree :
      (j : Job) → IsBalanced d → find_job j.id d ≡ some j → asks j ≡ true → HasKey j → IsFree d j
  ready-IsFree j b e r k = (k, waiting-not-reserved d j b e (ground arith))

  module _ (b : IsBalanced d) (keys : All (λ j. asks j ≡ true → HasKey j) d.jobs)
      (few : count asks d.jobs ≤ candidate_limit) where
    candidates-eq : candidates locked now i d.jobs ≡ order_by before (filter asks d.jobs)
    unfolding candidates
    candidates-eq =
        take_all candidate_limit (order_by before (filter asks d.jobs)) (
          omega
            (arith, length-order_by before (filter asks d.jobs), length-filter asks d.jobs, few))

    candidates-IsFree : All (IsFree d) (candidates locked now i d.jobs)
    candidates-IsFree = rw candidates-eq (
        All-order_by before (IsFree d) _ (
          All-map _ (IsFree d) _ (λ j ((e, k), r). ready-IsFree j b e r (k r))
            (All-filter (λ j. (find_job j.id d ≡ some j) × (asks j ≡ true → HasKey j)) asks d.jobs
              (All-zip _ _ d.jobs (IsKeyed-found job_pk d.jobs b.keyed) keys))))

    -- A ready job that is not blocked, so that not all candidates are.
    module _ (x : Job) (here : find_job x.id d ≡ some x) (ready : asks x ≡ true)
        (open_lock : ¬ IsBlocked to_text now d x) where
      some-free : All (IsBlocked to_text now d) (candidates locked now i d.jobs) → ⊥
      some-free a =
          let all = All-selected (IsBlocked to_text now d) asks d.jobs (
            All-ordered (IsBlocked to_text now d) before (filter asks d.jobs)
              (rw candidates-eq at a)) in
          open_lock (
            All-find job_pk (λ j. asks j ≡ true → IsBlocked to_text now d j) x.id d.jobs all here
              ready)

      loop-Takes :
          (s : TenantSchedulerState)
          → Takes (dispatch_first to_text now s (candidates locked now i d.jobs) d)
      loop-Takes s =
          elim (dispatch_first-Takes to_text now s d (candidates locked now i d.jobs)
            candidates-IsFree) [ inl t ↦ t | inr (blocked, _) ↦ absurd (some-free blocked) ]

      -- In a balanced state where a tenant has a slot free and at most 10 ready jobs that no other
      -- transaction locks, each with an object as payload, and one of them asks for no lock that
      -- is held, `dispatch_next` raises nothing and returns a job.
      pub dispatch_next-Takes :
          (s : TenantSchedulerState) (tenant : Tenant)
          → find_state i d ≡ some s
          → find_tenant s.tenant d ≡ some tenant
          → s.active_reservations < tenant.max_concurrent_jobs
          → Takes (dispatch_next to_text locked now i d)
      unfolding dispatch_next
      dispatch_next-Takes s tenant e f room =
          let (r, run) = loop-Takes s in
          let below : leb tenant.max_concurrent_jobs s.active_reservations ≡ false = ground arith in
          let loop = dispatch_first to_text now s (candidates locked now i d.jobs) d in
          (r, rw (e, f, below) (rw (roll_back_ok d loop run) run))
