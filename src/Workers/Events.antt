-- ===== src/Workers/Events.antt =====
-- The ids of the events in the outbox of the running system (jobs/models/outbox.py).
use mt_jobs.Base.{
  ℕ, suc, String, none, some, List, [], ◌∷◌, ◌++◌, ◌≡◌, ◌≤◌, ◌<◌, refl, any, filter, head?, All,
  arith, Option-cases, Bool-cases, inl, inr,
}
use mt_jobs.Base.Table.{
  find, IsKeyed, IsKeyed-save, IsKeyed-append, All-save, All-find, All-append, All-map,
}
use mt_jobs.Models.Job.{Job}
use mt_jobs.Models.Outbox.{JobOutbox}
use mt_jobs.Models.SchedulerState.{TenantSchedulerState}
use mt_jobs.Models.Tenant.{Tenant}
use mt_jobs.Store.Exec.{pure, roll_back, ◌>>=◌}
use mt_jobs.Store.Db.{Db, outbox_pk}
use mt_jobs.Services.Dispatcher.{reserve_job, new_event}
use mt_jobs.Services.Execution.{claim_job}
use mt_jobs.Services.Heartbeat.{heartbeat, renew_lease, is_running_attempt}
use mt_jobs.Services.Outbox.{World, Broker, publish_event}
use mt_jobs.Capacity.Dispatch.{is_reserved}
use mt_jobs.System.Steps.{Reach}
use mt_jobs.System.Limit.{start}
use mt_jobs.System.Frame.{Frame}
use mt_jobs.System.Frame.Claim.{claim_job-keeps}
use mt_jobs.System.Frame.Dispatch.{IsBefore, dispatch_next-keeps}
use mt_jobs.System.Frame.Others.{Reach-keeps}
use mt_jobs.Workers.Outbox.{publish_event-cases}

-- The ids of the events differ, and were all drawn.
abbrev pub IsTabled : ℕ → List JobOutbox → Type 0
IsTabled n events = IsKeyed outbox_pk events × All (λ e. e.id < n) events

abbrev HasTabled : Db → Type 0
HasTabled d = IsTabled d.next_uuid d.outbox

IsTabled-le : (n m : ℕ) (xs : List JobOutbox) → n ≤ m → IsTabled n xs → IsTabled m xs
IsTabled-le n m xs le (k, a) = (k, All-map _ _ xs (λ x h. omega (arith, h, le)) a)

-- An id that was not drawn is not found.
undrawn-none : (n : ℕ) (xs : List JobOutbox) → All (λ e. e.id < n) xs → find outbox_pk n xs ≡ none
unfolding find
undrawn-none n [] a = refl
undrawn-none n (x ∷ xs) (h, a) = ground (arith, h, undrawn-none n xs a)

IsTabled-append :
    (n m : ℕ) (e : JobOutbox) (xs : List JobOutbox)
    → n ≤ e.id
    → e.id < m
    → IsTabled n xs
    → IsTabled m (xs ++ e ∷ [])
IsTabled-append n m e xs le lt h =
    let (k, a) = IsTabled-le n e.id xs le h in
    let (_, b) = IsTabled-le n m xs (omega (arith, le, lt)) h in
    (IsKeyed-append outbox_pk e xs (undrawn-none e.id xs a) k, All-append _ xs e b lt)

event_frame : Frame HasTabled
event_frame = record {
  other = λ d e _ _ o k h. rw o (IsTabled-le d.next_uuid e.next_uuid d.outbox k.uuids h);
  release = λ i d e _ _ o k h. rw o (IsTabled-le d.next_uuid e.next_uuid d.outbox k.uuids h);
}

heartbeat-HasTabled : (now i : ℕ) (d : Db) → HasTabled d → HasTabled (heartbeat now i d).1
unfolding heartbeat renew_lease
heartbeat-HasTabled now i d h =
    elim (Option-cases (head? (filter (is_running_attempt i) d.attempts))) [
      | inl e ↦ rw e h
      | inr (a, e) ↦ rw e h
    ]

publish_event-HasTabled :
    (broker : Broker) (now i : ℕ) (w : World)
    → HasTabled w.db
    → HasTabled (publish_event broker now i w).1.db
publish_event-HasTabled broker now i w (k, a) = elim (publish_event-cases broker now i w) [
  | inl (x, run) ↦ rw run (k, a)
  | inr (inl (e, _, _, run)) ↦ rw run (k, a)
  | inr (inr (e, stands, _, _, run)) ↦ rw run (
    IsKeyed-save outbox_pk _ w.db.outbox k,
    All-save outbox_pk (λ x. x.id < w.db.next_uuid) _ w.db.outbox a
        (All-find outbox_pk (λ x. x.id < w.db.next_uuid) i w.db.outbox a stands),
  )
]

claim_job-HasTabled :
    (now : ℕ) (hostname : String) (i : ℕ) (d : Db)
    → HasTabled d
    → HasTabled (claim_job now hostname i d).1
claim_job-HasTabled now hostname i d h =
    claim_job-keeps HasTabled now hostname i d h
      (λ j e. IsTabled-le d.next_uuid (suc d.next_uuid) d.outbox (omega arith) h)

reserve-HasTabled :
    (now : ℕ) (d : Db)
    → HasTabled d
    → (s : TenantSchedulerState) (job : Job) (e : Db) → HasTabled e
    → HasTabled (roll_back d ((reserve_job now job s >>= λ j. pure (some j)) e)).1
unfolding reserve_job
reserve-HasTabled now d h s job e k = elim (Bool-cases (any (is_reserved job.id) e.reservations)) [
  | inl clash ↦ rw clash h
  | inr free ↦ rw free (
      IsTabled-append e.next_uuid _ (new_event (suc (suc e.next_uuid)) now job) e.outbox
        (omega arith) (omega arith) k)
]

before-HasTabled :
    (now : ℕ) (d : Db) (job : Job) (e : Db) → IsBefore now d job e → HasTabled d → HasTabled e
before-HasTabled now d job e (inl p) h = rw p h
before-HasTabled now d job e (inr (k, _, p)) h =
    rw p (IsTabled-le d.next_uuid _ d.outbox (omega arith) h)

-- In the running system the ids of the events differ.
pub Reach-IsTabled :
    {tenants : List Tenant} {w : World}
    → Reach (start tenants) w
    → IsTabled w.db.next_uuid w.db.outbox
Reach-IsTabled {tenants} r =
    Reach-keeps HasTabled event_frame heartbeat-HasTabled
      (λ to_text locked now t d h.
        dispatch_next-keeps HasTabled now d h
          (λ s job e b. reserve-HasTabled now d h s job e (before-HasTabled now d job e b h))
          to_text locked t)
      publish_event-HasTabled claim_job-HasTabled {w = start tenants} (tt, tt) r
