-- ===== src/Idempotency/Fresh.antt =====
-- The ids of the jobs in the running system, and what they make of a submission with a new key
-- (jobs/services/submission.py).
use mt_jobs.Base.{
  ℕ, suc, String, false, none, some, List, [], ◌∷◌, ◌≡◌, refl, any, filter, head?, arith,
  Option-cases, Bool-cases, inl, inr,
}
use mt_jobs.Models.Job.{Job}
use mt_jobs.Models.SchedulerState.{TenantSchedulerState}
use mt_jobs.Models.Tenant.{Tenant}
use mt_jobs.Store.Exec.{pure, roll_back, ◌>>=◌}
use mt_jobs.Store.Db.{Db, jobs_conflict}
use mt_jobs.Services.Dispatcher.{reserve_job, queued_job}
use mt_jobs.Services.Execution.{claim_job, executing_job}
use mt_jobs.Services.Heartbeat.{heartbeat, renew_lease, is_running_attempt}
use mt_jobs.Services.Outbox.{World, Broker, publish_event}
use mt_jobs.Services.Submission.{find_duplicate, has_key}
use mt_jobs.Capacity.Dispatch.{is_reserved}
use mt_jobs.System.Steps.{Reach}
use mt_jobs.System.Limit.{start}
use mt_jobs.System.Frame.{Frame, IsDrawn, IsDrawn-save, IsDrawn-le}
use mt_jobs.System.Frame.Claim.{claim_job-keeps}
use mt_jobs.System.Frame.Dispatch.{IsBefore, dispatch_next-keeps}
use mt_jobs.System.Frame.Others.{Reach-keeps}
use mt_jobs.Workers.Outbox.{publish_event-cases}

abbrev AllDrawn : Db → Type 0
AllDrawn d = IsDrawn d.next_uuid d.jobs

drawn_frame : Frame AllDrawn
drawn_frame = record { other = λ d e _ _ _ k h. k.jobs h; release = λ i d e _ _ _ k h. k.jobs h }

heartbeat-AllDrawn : (now i : ℕ) (d : Db) → AllDrawn d → AllDrawn (heartbeat now i d).1
unfolding heartbeat renew_lease
heartbeat-AllDrawn now i d h =
    elim (Option-cases (head? (filter (is_running_attempt i) d.attempts))) [
      | inl e ↦ rw e h
      | inr (a, e) ↦ rw e h
    ]

publish_event-AllDrawn :
    (broker : Broker) (now i : ℕ) (w : World)
    → AllDrawn w.db
    → AllDrawn (publish_event broker now i w).1.db
publish_event-AllDrawn broker now i w h = elim (publish_event-cases broker now i w) [
  | inl (x, run) ↦ rw run h
  | inr (inl (e, _, _, run)) ↦ rw run h
  | inr (inr (e, _, _, _, run)) ↦ rw run h
]

claim_job-AllDrawn :
    (now : ℕ) (hostname : String) (i : ℕ) (d : Db)
    → AllDrawn d
    → AllDrawn (claim_job now hostname i d).1
claim_job-AllDrawn now hostname i d h = claim_job-keeps AllDrawn now hostname i d h (λ j e.
    IsDrawn-save (suc d.next_uuid) (executing_job now j) d.jobs
      (IsDrawn-le d.next_uuid (suc d.next_uuid) d.jobs (omega arith) h))

reserve-AllDrawn :
    (now : ℕ) (d : Db)
    → AllDrawn d
    → (s : TenantSchedulerState) (job : Job) (e : Db) → AllDrawn e
    → AllDrawn (roll_back d ((reserve_job now job s >>= λ j. pure (some j)) e)).1
unfolding reserve_job
reserve-AllDrawn now d h s job e k = elim (Bool-cases (any (is_reserved job.id) e.reservations)) [
  | inl clash ↦ rw clash h
  | inr free ↦
      rw free (
        IsDrawn-save _ (queued_job now job) e.jobs
          (IsDrawn-le e.next_uuid _ e.jobs (omega arith) k))
]

before-AllDrawn :
    (now : ℕ) (d : Db) (job : Job) (e : Db) → IsBefore now d job e → AllDrawn d → AllDrawn e
before-AllDrawn now d job e (inl p) h = rw p h
before-AllDrawn now d job e (inr (k, _, p)) h =
    rw p (IsDrawn-le d.next_uuid _ d.jobs (omega arith) h)

Reach-AllDrawn : {w v : World} → AllDrawn w.db → Reach w v → AllDrawn v.db
Reach-AllDrawn =
    Reach-keeps AllDrawn drawn_frame heartbeat-AllDrawn
      (λ to_text locked now t d h.
        dispatch_next-keeps AllDrawn now d h
          (λ s job e b. reserve-AllDrawn now d h s job e (before-AllDrawn now d job e b h)) to_text
          locked t)
      publish_event-AllDrawn claim_job-AllDrawn

-- A row with a new id and a key that its tenant has not used is accepted.
accepted :
    (j : Job) (k : String) (jobs : List Job)
    → j.idempotency_key ≡ some k
    → find_duplicate j.tenant k jobs ≡ none
    → IsDrawn j.id jobs
    → any (jobs_conflict j) jobs ≡ false
unfolding any find_duplicate filter head?
accepted j k [] e f a = refl
accepted j k (x ∷ jobs) e f (h, a) = elim (Bool-cases (has_key j.tenant k x)) [
  | inl hit ↦ absurd (ground (arith, hit, f))
  | inr miss ↦
      let f' : find_duplicate j.tenant k jobs ≡ none = ground (arith, miss, f) in
      rw e (ground (arith, miss, h, accepted j k jobs e f' a))
]

-- A job with the next id and a key that its tenant has not used breaks no unique constraint.
pub new_key-IsFree :
    {tenants : List Tenant} {w : World} (j : Job) (k : String)
    → Reach (start tenants) w
    → j.id ≡ w.db.next_uuid
    → j.idempotency_key ≡ some k
    → find_duplicate j.tenant k w.db.jobs ≡ none
    → any (jobs_conflict j) w.db.jobs ≡ false
new_key-IsFree {tenants} {w} j k r p e f =
    accepted j k w.db.jobs e f (rw p (Reach-AllDrawn {w = start tenants} tt r))
