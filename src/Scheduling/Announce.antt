-- ===== src/Scheduling/Announce.antt =====
-- What `dispatch_next` (jobs/services/dispatcher.py) writes for the job that it takes.
use mt_jobs.Base.{
  ℕ, String, Bool, true, Option, some, List, [], ◌∷◌, ◌≡◌, ◌==◌, ◌&&◌, refl, subst, any, leb, not,
  All, arith, eq→==, Bool-cases, Option-cases, inl, inr,
}
use mt_jobs.Base.Table.{
  find-save, any-append, All-filter, All-take, All-map, IsKeyed, IsKeyed-found,
}
use mt_jobs.Base.Sort.{All-order_by}
use mt_jobs.Models.Json.{Json}
use mt_jobs.Models.Job.{Job}
use mt_jobs.Models.Outbox.{JobOutbox, is_pending}
use mt_jobs.Models.SchedulerState.{TenantSchedulerState}
use mt_jobs.Domain.Payload.{payload_get}
use mt_jobs.Domain.Exceptions.{Result, ok, err, Result-cases}
use mt_jobs.Store.Exec.{pure, roll_back, ◌>>=◌}
use mt_jobs.Store.Db.{Db, find_job, find_state, find_tenant, job_pk}
use mt_jobs.Services.SchedulerState.{before, is_ready}
use mt_jobs.Services.Dispatcher.{
  dispatch_next, dispatch_first, reserve_job, candidates, candidate_limit, queued_job,
  new_reservation, new_event,
}
use mt_jobs.Capacity.Dispatch.{acquire_if_asked-Claims, is_reserved, reserved_db, with_lock}

-- An event that waits to be sent for a job.
abbrev pub announces : ℕ → JobOutbox → Bool
announces i e = e.job == i && is_pending e.status

-- The job stands as it was returned, with a reservation and an event.
abbrev pub IsAnnounced : Job → Db → Type 0
IsAnnounced r d =
    (find_job r.id d ≡ some r)
    × (any (is_reserved r.id) d.reservations ≡ true)
    × (any (announces r.id) d.outbox ≡ true)

abbrev Present : Db → Job → Type 0
Present d job = find_job job.id d ≡ some job

-- If a transaction returned a job, it is announced.
abbrev Announces : Db → Result (Option Job) × Db → Type 0
Announces d x = (r : Job) → x.0 ≡ ok (some r) → IsAnnounced r x.1

reserved-IsAnnounced :
    (now : ℕ) (job : Job) (s : TenantSchedulerState) (d : Db)
    → Present d job
    → IsAnnounced (queued_job now job) (reserved_db now job s d)
reserved-IsAnnounced now job s d here =
    let own : (job.id == job.id) ≡ true = eq→== job.id job.id refl in
    (
      ground (arith, own, find-save job_pk job.id (queued_job now job) job d.jobs here),
      any-append (is_reserved job.id) d.reservations (new_reservation _ _ now job s) own,
      any-append (announces job.id) d.outbox (new_event _ now job) (rw own refl),
    )

reserve-Announces :
    (now : ℕ) (job : Job) (s : TenantSchedulerState) (d e : Db)
    → Present e job
    → Announces d ((reserve_job now job s >>= λ j. pure (some j)) e)
unfolding reserve_job
reserve-Announces now job s d e here = elim (Bool-cases (any (is_reserved job.id) e.reservations)) [
  | inl clash ↦ rw clash (λ r h. cc h)
  | inr free ↦ rw free (λ r h.
      let p : queued_job now job ≡ r = cc h in
      subst (λ (z : Job). IsAnnounced z (reserved_db now job s e)) p
        (reserved-IsAnnounced now job s e here))
]

dispatch_first-Announces :
    (to_text : Json → String) (now : ℕ) (s : TenantSchedulerState) (d : Db) (jobs : List Job)
    → All (Present d) jobs
    → Announces d (dispatch_first to_text now s jobs d)
unfolding dispatch_first
dispatch_first-Announces to_text now s d [] a = λ r h. cc h
dispatch_first-Announces to_text now s d (job ∷ rest) (p, a) =
    let ih = dispatch_first-Announces to_text now s d rest a in
    elim (Result-cases (payload_get job.payload "overlap_key")) [
      | inl (x, e) ↦ rw (e, dispatch_first) (λ r h. cc h)
      | inr (key, e) ↦ elim (acquire_if_asked-Claims to_text now job key d) [
        | inl (_, skip) ↦ rw (e, dispatch_first, skip) ih
        | inr (inl (_, free)) ↦ rw (e, dispatch_first, free) (reserve-Announces now job s d d p)
        | inr (inr (k, _, _, free)) ↦
            rw (e, dispatch_first, free) (reserve-Announces now job s d (with_lock now job k d) p)
      ]
    ]

roll_back-Announces :
    (d : Db) (x : Result (Option Job) × Db) → Announces d x → Announces d (roll_back d x)
roll_back-Announces d (ok o, e) h = h
roll_back-Announces d (err x, e) h = λ r p. cc p

candidates-Present :
    (locked : ℕ → Bool) (now i : ℕ) (d : Db)
    → IsKeyed job_pk d.jobs
    → All (Present d) (candidates locked now i d.jobs)
unfolding candidates
candidates-Present locked now i d keyed = All-take (Present d) candidate_limit _ (
    All-order_by before (Present d) _ (
      All-map _ (Present d) _ (λ j (e, _). e)
        (All-filter (Present d) (λ j. is_ready now i j && not (locked j.id)) d.jobs
          (IsKeyed-found job_pk d.jobs keyed))))

-- Where the ids of the jobs differ and `dispatch_next` returns a job, that row stands in the
-- table, a reservation is held for the job, and an outbox event for it waits to be sent.
pub dispatch_next-IsAnnounced :
    (to_text : Json → String) (locked : ℕ → Bool) (now i : ℕ) (d : Db)
    → IsKeyed job_pk d.jobs
    → (r : Job) → (dispatch_next to_text locked now i d).0 ≡ ok (some r)
    → IsAnnounced r (dispatch_next to_text locked now i d).1
unfolding dispatch_next
dispatch_next-IsAnnounced to_text locked now i d keyed = elim (Option-cases (find_state i d)) [
  | inl e ↦ rw e (λ r h. cc h)
  | inr (s, e) ↦ elim (Option-cases (find_tenant s.tenant d)) [
    | inl missing ↦ rw (e, missing) (λ r h. cc h)
    | inr (tenant, f) ↦ elim (Bool-cases (leb tenant.max_concurrent_jobs s.active_reservations)) [
      | inl full ↦ rw (e, f, full) (λ r h. cc h)
      | inr below ↦
          rw (e, f, below)
            (roll_back-Announces d _ (
              dispatch_first-Announces to_text now s d (candidates locked now i d.jobs)
                (candidates-Present locked now i d keyed)))
    ]
  ]
]
