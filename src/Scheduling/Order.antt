-- ===== src/Scheduling/Order.antt =====
-- Which job `dispatch_next` takes (jobs/services/dispatcher.py).
use mt_jobs.Base.{
  ℕ, zero, suc, String, Bool, true, false, not, Option, some, none, List, [], ◌∷◌, ◌≡◌, ◌&&◌, ◌⊎◌,
  refl, take, filter, leb, any, All, arith, Bool-cases, Option-cases, inl, inr,
}
use mt_jobs.Base.Table.{All-map, All-filter, IsKeyed, IsKeyed-found}
use mt_jobs.Base.Queries.{All-selected, All-ordered}
use mt_jobs.Base.Sort.{order_by, IsSorted, order_by-IsSorted, All-order_by}
use mt_jobs.Models.Json.{Json}
use mt_jobs.Models.Job.{Job}
use mt_jobs.Models.SchedulerState.{TenantSchedulerState}
use mt_jobs.Domain.Payload.{payload_get}
use mt_jobs.Domain.Exceptions.{Result, ok, err, Result-cases}
use mt_jobs.Store.Exec.{pure, roll_back, ◌>>=◌}
use mt_jobs.Store.Db.{Db, job_pk, find_job, find_state, find_tenant}
use mt_jobs.Services.SchedulerState.{before, is_ready}
use mt_jobs.Services.Dispatcher.{
  dispatch_next, dispatch_first, reserve_job, candidates, candidate_limit, queued_job,
}
use mt_jobs.Capacity.Dispatch.{
  AsksInVain, acquire_if_asked-Claims, reserve_job-eq, is_reserved, with_lock,
}

pub before_total : (x y : Job) → before x y ≡ false → before y x ≡ true
before_total x y h = ground arith

pub before_trans : (x y z : Job) → before x y ≡ true → before y z ≡ true → before x z ≡ true
before_trans x y z h k = ground arith

-- A job whose payload asks for a lock that another row holds.
abbrev pub IsBlocked : (Json → String) → ℕ → Db → Job → Type 0
IsBlocked to_text now d job =
    (key : Option Json) × (payload_get job.payload "overlap_key" ≡ ok key)
    × AsksInVain to_text now d job key

-- Every job that comes before it is blocked.
abbrev pub IsNext : (Json → String) → ℕ → Db → Job → Job → Type 0
IsNext to_text now d job other = before job other ≡ false → IsBlocked to_text now d other

reserve-result :
    (now : ℕ) (job : Job) (s : TenantSchedulerState) (d : Db) (r : Job)
    → ((reserve_job now job s >>= λ j. pure (some j)) d).0 ≡ ok (some r)
    → r ≡ queued_job now job
unfolding reserve_job
reserve-result now job s d r h = elim (Bool-cases (any (is_reserved job.id) d.reservations)) [
  | inr free ↦ let h' = rw (reserve_job-eq now job s d free) at h in cc h'
  | inl clash ↦ let h' = rw clash at h in cc h'
]

-- A job that stands before the others is next.
IsNext-front :
    (to_text : Json → String) (now : ℕ) (d : Db) (job : Job) (rest : List Job)
    → All (λ k. before job k ≡ true) rest
    → All (IsNext to_text now d job) (job ∷ rest)
IsNext-front to_text now d job rest a = (
  λ h. absurd (irrefl h),
  All-map (λ k. before job k ≡ true) (IsNext to_text now d job) rest (λ k h e. absurd (cc (h, e)))
      a,
)
  where
    irrefl : before job job ≡ false → ⊥
    irrefl h = ground arith

module _ (to_text : Json → String) (now : ℕ) (s : TenantSchedulerState) (d : Db) where
  -- One round of the loop: a blocked job is passed over, and the loop ends with any other.
  dispatch_first-round :
      (job : Job) (rest : List Job)
      → (IsBlocked to_text now d job
          × (dispatch_first to_text now s (job ∷ rest) d ≡ dispatch_first to_text now s rest d))
        ⊎ ((r : Job)
            → (dispatch_first to_text now s (job ∷ rest) d).0 ≡ ok (some r)
            → r ≡ queued_job now job)
  unfolding dispatch_first
  dispatch_first-round job rest = elim (Result-cases (payload_get job.payload "overlap_key")) [
    | inl (x, e) ↦ inr (rw (dispatch_first, e) (λ r h. cc h))
    | inr (key, e) ↦ elim (acquire_if_asked-Claims to_text now job key d) [
      | inl (vain, skip) ↦ inl ((key, e, vain), rw (dispatch_first, e, skip) refl)
      | inr (inl (_, free)) ↦ inr (rw (dispatch_first, e, free) (λ r. reserve-result now job s d r))
      | inr (inr (k, _, _, free)) ↦
          inr
            (rw (dispatch_first, e, free) (λ r. reserve-result now job s (with_lock now job k d) r))
    ]
  ]

  dispatch_first-none : dispatch_first to_text now s [] d ≡ (ok none, d)
  unfolding dispatch_first
  dispatch_first-none = refl

  -- The job that the loop over the first `n` of a sorted list takes.
  dispatch_first-IsNext {κ} :
      (P : Job → Type κ) (n : ℕ) (jobs : List Job) (r : Job)
      → IsSorted before jobs
      → All P jobs
      → (dispatch_first to_text now s (take n jobs) d).0 ≡ ok (some r)
      → (job : Job) × P job × (r ≡ queued_job now job) × All (IsNext to_text now d job) jobs
  unfolding take
  dispatch_first-IsNext P zero jobs r so a h = cc (rw dispatch_first-none at h)
  dispatch_first-IsNext P (suc n) [] r so a h = cc (rw dispatch_first-none at h)
  dispatch_first-IsNext P (suc n) (job ∷ rest) r so a h =
      elim (dispatch_first-round job (take n rest)) [
        | inr taken ↦ (job, a.0, taken r h, IsNext-front to_text now d job rest so.0)
        | inl (blocked, skip) ↦
            let (j, p, q, firsts) = dispatch_first-IsNext P n rest r so.1 a.1 (rw skip at h) in
            (j, p, q, ((λ _. blocked), firsts))
      ]

-- A job that the query may select.
abbrev pub IsEligible : (ℕ → Bool) → ℕ → ℕ → Db → Job → Type 0
IsEligible locked now t d job =
    (find_job job.id d ≡ some job) × ((is_ready now t job && not (locked job.id)) ≡ true)

module _ (to_text : Json → String) (locked : ℕ → Bool) (now i : ℕ) (d : Db)
    (keyed : IsKeyed job_pk d.jobs) where
  candidates-IsNext :
      (s : TenantSchedulerState) (r : Job)
      → (dispatch_first to_text now s (candidates locked now i d.jobs) d).0 ≡ ok (some r)
      → (job : Job) × IsEligible locked now i d job
        × (r ≡ queued_job now job)
        × All
            (λ k. (is_ready now i k && not (locked k.id)) ≡ true → IsNext to_text now d job k)
            d.jobs
  unfolding candidates
  candidates-IsNext s r h =
      let asks = λ (j : Job). is_ready now i j && not (locked j.id) in
      let rows = filter asks d.jobs in
      let (job, p, q, a) =
        dispatch_first-IsNext to_text now s d (IsEligible locked now i d) candidate_limit
          (order_by before rows) r (order_by-IsSorted before before_total before_trans rows)
          (All-order_by before (IsEligible locked now i d) rows (
            All-filter (λ j. find_job j.id d ≡ some j) asks d.jobs
              (IsKeyed-found job_pk d.jobs keyed)))
          h in
      (
        job,
        p,
        q,
        All-selected (IsNext to_text now d job) asks d.jobs
            (All-ordered (IsNext to_text now d job) before rows a),
      )

  roll_back-ok : {A : Type 0} (x : Result A × Db) {a : A} → (roll_back d x).0 ≡ ok a → x.0 ≡ ok a
  roll_back-ok (ok b, e) h = h
  roll_back-ok (err b, e) h = cc

  -- A dispatch that takes a job took it in the loop.
  dispatch_next-loop :
      (r : Job)
      → (dispatch_next to_text locked now i d).0 ≡ ok (some r)
      → (s : TenantSchedulerState) × ((dispatch_first to_text now s
            (candidates locked now i d.jobs)
            d).0
          ≡ ok (some r))
  unfolding dispatch_next
  dispatch_next-loop r = elim (Option-cases (find_state i d)) [
    | inl e ↦ rw e (λ h. cc h)
    | inr (s, e) ↦ elim (Option-cases (find_tenant s.tenant d)) [
      | inl missing ↦ rw (e, missing) (λ h. cc h)
      | inr (tenant, f) ↦ elim (Bool-cases (leb tenant.max_concurrent_jobs s.active_reservations)) [
        | inl full ↦ rw (e, f, full) (λ h. cc h)
        | inr below ↦ rw (e, f, below) (λ h. (s, roll_back-ok _ h))
      ]
    ]
  ]

  -- Where the ids of the jobs differ and `dispatch_next` returns a job, it is a ready job of the
  -- tenant that no other transaction locks, now queued; and every other such job that comes
  -- strictly before it, by priority and then by `ready_since`, asks for an overlap lock that
  -- another row holds.
  pub dispatch_next-IsNext :
      (r : Job)
      → (dispatch_next to_text locked now i d).0 ≡ ok (some r)
      → (job : Job) × IsEligible locked now i d job
        × (r ≡ queued_job now job)
        × All
            (λ k. (is_ready now i k && not (locked k.id)) ≡ true → IsNext to_text now d job k)
            d.jobs
  dispatch_next-IsNext r h = let (s, h') = dispatch_next-loop r h in candidates-IsNext s r h'
