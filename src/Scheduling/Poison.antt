-- ===== src/Scheduling/Poison.antt =====
-- A job whose payload is no object, at the front of its tenant's queue (jobs/services/dispatcher.py and
-- `dispatch_jobs` of jobs/tasks.py).
use mt_jobs.Base.{
  ℕ, String, Bool, true, false, not, some, List, [], ◌∷◌, ◌≡◌, ◌≤◌, ◌<◌, ◌==◌, ◌&&◌, refl, subst,
  ◌∙◌, leb, head?, any, take, filter, All, arith, Option-cases, Bool-cases, inl, inr, ==→eq,
}
use mt_jobs.Base.Table.{IsKeyed, IsKeyed-found, All-find, All-filter}
use mt_jobs.Base.Sort.{order_by, All-order_by}
use mt_jobs.Models.Json.{Json}
use mt_jobs.Models.Job.{Job}
use mt_jobs.Models.Tenant.{Tenant}
use mt_jobs.Models.SchedulerState.{TenantSchedulerState}
use mt_jobs.Domain.Payload.{payload_get}
use mt_jobs.Domain.Exceptions.{Exception, err}
use mt_jobs.Store.Db.{Db, job_pk, find_job, find_state, find_tenant}
use mt_jobs.Services.SchedulerState.{before, is_ready, is_waiting}
use mt_jobs.Services.Dispatcher.{dispatch_next, dispatch_first, candidates}
use mt_jobs.Tasks.{dispatch_jobs, dispatch_each, ready_tenants}
use mt_jobs.Scheduling.Order.{before_total, before_trans}
use mt_jobs.Scheduling.Refresh.{head-none, head-least}
use mt_jobs.Scheduling.Progress.{All-zip}

-- A job of the tenant that comes strictly before every other one that waits, available or not.
abbrev pub IsFront : ℕ → Job → List Job → Type 0
IsFront t x jobs =
    All (λ j. is_waiting t j ≡ true → (j.id == x.id) ≡ false → before j x ≡ false) jobs

-- One run of the task: the rows that other transactions lock, and the instant.
abbrev pub Run : Type 0
Run = (ℕ → Bool) × ℕ

-- Whether a run finds the job available and not locked.
abbrev pub Meets : Job → Run → Type 0
Meets x (locked, now) = (x.available_at ≤ now) × (locked x.id ≡ false)

-- The database after some runs of the task.
unfoldable pub after_runs : (Json → String) → List Run → Db → Db
after_runs to_text [] d = d
after_runs to_text ((locked, now) ∷ runs) d =
    after_runs to_text runs (dispatch_jobs to_text locked now d).1

All-head : (P : Job → Type 0) (ys : List Job) (y : Job) → All P ys → head? ys ≡ some y → P y
unfolding head?
All-head P [] y a h = cc h
All-head P (z ∷ ys) y a h = let q : z ≡ y = cc h in subst P q a.0

-- The jobs that the query selects.
abbrev asks : (ℕ → Bool) → ℕ → ℕ → Job → Bool
asks locked now t j = is_ready now t j && not (locked j.id)

head?-take : (ys : List Job) → head? (take 10 ys) ≡ head? ys
unfolding head? take
head?-take [] = refl
head?-take (y ∷ ys) = refl

head?-candidates :
    (locked : ℕ → Bool) (now t : ℕ) (d : Db)
    → head? (candidates locked now t d.jobs)
      ≡ head? (order_by before (filter (asks locked now t) d.jobs))
unfolding candidates
head?-candidates locked now t d = head?-take (order_by before (filter (asks locked now t) d.jobs))

any-none : (p : Job → Bool) (xs : List Job) → any p xs ≡ false → All (λ x. p x ≡ false) xs
unfolding any
any-none p [] h = tt
any-none p (x ∷ xs) h = elim (Bool-cases (p x)) [
  | inl e ↦ absurd (ground (arith, h, e))
  | inr e ↦ (e, any-none p xs (ground (arith, h, e)))
]

module _ (t : ℕ) (d : Db) (x : Job) (keyed : IsKeyed job_pk d.jobs)
    (here : find_job x.id d ≡ some x) (waits : is_waiting t x ≡ true)
    (front : IsFront t x d.jobs) where
  module _ (locked : ℕ → Bool) (now : ℕ) (meets : Meets x (locked, now)) where
    abbrev Sound : Job → Type 0
    Sound j =
        (find_job j.id d ≡ some j)
        × (is_waiting t j ≡ true → (j.id == x.id) ≡ false → before j x ≡ false)

    x-asks : asks locked now t x ≡ true
    x-asks = ground (arith, waits, meets.0, meets.1)

    -- Whatever the query takes first is the job in front.
    least-eq : (y : Job) → Sound y × (asks locked now t y ≡ true) → before y x ≡ true → y ≡ x
    least-eq y ((own, later), a) le = elim (Bool-cases (y.id == x.id)) [
      | inl e ↦ let q = subst (λ n. find_job n d ≡ some y) (==→eq y.id x.id e) own in cc (q, here)
      | inr e ↦ let miss = later (ground (arith, a)) e in absurd (cc (miss, le))
    ]

    head-front : head? (candidates locked now t d.jobs) ≡ some x
    head-front =
        head?-candidates locked now t d
        ∙ (elim (Option-cases (head? (order_by before (filter (asks locked now t) d.jobs)))) [
          | inl e ↦
              let no =
                any-none (asks locked now t) d.jobs
                  (head-none before before_total before_trans (asks locked now t) d.jobs e) in
              let miss = All-find job_pk (λ z. asks locked now t z ≡ false) x.id d.jobs no here in
              absurd (cc (miss, x-asks))
          | inr (y, e) ↦
              let sound =
                All-order_by before (λ j. Sound j × (asks locked now t j ≡ true)) _
                  (All-filter Sound (asks locked now t) d.jobs
                    (All-zip _ _ d.jobs (IsKeyed-found job_pk d.jobs keyed) front)) in
              let least =
                head-least before before_total before_trans (asks locked now t) d.jobs y e in
              let le =
                All-find job_pk (λ z. asks locked now t z ≡ true → before y z ≡ true) x.id d.jobs
                  least here in
              let q = least-eq y (All-head _ _ y sound e) (le x-asks) in
              subst (λ z. head? (order_by before (filter (asks locked now t) d.jobs)) ≡ some z) q e
        ])

  module _ (to_text : Json → String) (s : TenantSchedulerState) (tenant : Tenant) (e : Exception)
      (rest : List ℕ) (counter : find_state t d ≡ some s)
      (owner : find_tenant s.tenant d ≡ some tenant)
      (room : s.active_reservations < tenant.max_concurrent_jobs)
      (first : ready_tenants d ≡ t ∷ rest)
      (poison : payload_get x.payload "overlap_key" ≡ err e) where
    first-raises :
        (now : ℕ) (jobs : List Job)
        → head? jobs ≡ some x
        → dispatch_first to_text now s jobs d ≡ (err e, d)
    unfolding head? dispatch_first
    first-raises now [] h = cc h
    first-raises now (y ∷ others) h =
        let same : x ≡ y = cc h in let q = rw same at poison in rw (dispatch_first, q) refl

    dispatch_next-raises :
        (locked : ℕ → Bool) (now : ℕ)
        → Meets x (locked, now)
        → dispatch_next to_text locked now t d ≡ (err e, d)
    unfolding dispatch_next
    dispatch_next-raises locked now meets =
        let below : leb tenant.max_concurrent_jobs s.active_reservations ≡ false = ground arith in
        let raises =
          first-raises now (candidates locked now t d.jobs) (head-front locked now meets) in
        rw (counter, owner, below, raises) refl

    run-raises :
        (locked : ℕ → Bool) (now : ℕ)
        → Meets x (locked, now)
        → dispatch_jobs to_text locked now d ≡ (err e, d)
    unfolding dispatch_jobs dispatch_each
    run-raises locked now meets = rw (first, dispatch_next-raises locked now meets) refl

    after_runs-eq : (runs : List Run) → All (Meets x) runs → after_runs to_text runs d ≡ d
    unfolding after_runs
    after_runs-eq [] a = refl
    after_runs-eq ((locked, now) ∷ runs) (m, a) =
        rw (run-raises locked now m) (after_runs-eq runs a)

    -- Where the ids of the jobs differ, the first tenant with ready work has a slot free, and the
    -- payload of a waiting job of it that comes strictly before all others that wait, available or
    -- not, is no object, every run of `dispatch_jobs` that finds that job available and not locked
    -- raises and serves no tenant, after any number of such runs at any instants, and the database
    -- is as it was.
    pub dispatch_jobs-raises :
        (runs : List Run) (locked : ℕ → Bool) (now : ℕ)
        → All (Meets x) runs
        → Meets x (locked, now)
        → dispatch_jobs to_text locked now (after_runs to_text runs d) ≡ (err e, d)
    dispatch_jobs-raises runs locked now a meets =
        rw (after_runs-eq runs a) (run-raises locked now meets)
