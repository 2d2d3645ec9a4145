-- ===== src/System/Life.antt =====
-- The life of a job in the running system.
use mt_jobs.Base.{
  ℕ, Bool, true, some, List, ◌≡◌, ◌≤◌, ◌⊎◌, refl, sym, subst, ◌∙◌, ap, filter, head?, arith,
  Option-cases, Bool-cases, inl, inr,
}
use mt_jobs.Base.Table.{find, All-find}
use mt_jobs.Models.Job.{Job}
use mt_jobs.Models.Attempt.{JobAttempt, is_running}
use mt_jobs.Models.Outbox.{is_pending}
use mt_jobs.Models.Tenant.{Tenant}
use mt_jobs.Store.Db.{Db, find_job, find_attempt, job_pk, outbox_pk}
use mt_jobs.Services.Outbox.{World, Broker, publish_event, send_event}
use mt_jobs.Services.Heartbeat.{heartbeat, renew_lease, is_running_attempt}
use mt_jobs.Capacity.Balance.{IsBalanced, works}
use mt_jobs.Capacity.Attempts.{attempt_job}
use mt_jobs.Capacity.Refresh.{refresh-eq}
use mt_jobs.Lifecycle.Moves.{Edits, Edits-trans}
use mt_jobs.Lifecycle.Rows.{
  IsBounded, attempt_cap, attempt_cap-le, Edits-IsBounded, SameIdentity, Edits-SameIdentity,
}
use mt_jobs.Lifecycle.Edges.{Walk, is_terminal, Edits-Walk, Edits-Stays}
use mt_jobs.Lifecycle.Services.Finish.{
  complete_job-History, fail_job-History, fail_attempt-History, reconcile_attempt-History,
}
use mt_jobs.Lifecycle.Services.Others.{
  claim_job-History, cancel_job-History, recover_queued-History, submit_job-History,
  replay_dead_letter-History, promote_ready_retries-History,
}
use mt_jobs.Lifecycle.Services.Dispatch.{dispatch_next-History}
use mt_jobs.System.Steps.{Step, Reach, here, next, IsDispatch}
use mt_jobs.System.Limit.{Reach-IsBalanced, start, empty-IsBalanced}

pub jobs-publish_event :
    (broker : Broker) (now i : ℕ) (w : World) → (publish_event broker now i w).1.db.jobs ≡ w.db.jobs
unfolding publish_event send_event
jobs-publish_event broker now i w = elim (Option-cases (find outbox_pk i w.db.outbox)) [
  | inl e ↦ rw e
  | inr (event, e) ↦ elim (Bool-cases (is_pending event.status)) [
    | inr sent ↦ rw (e, sent)
    | inl waits ↦ elim (Option-cases (broker event.job)) [
      | inr (x, down) ↦ rw (e, waits, down)
      | inl up ↦ rw (e, waits, up)
    ]
  ]
]

jobs-heartbeat : (now i : ℕ) (d : Db) → (heartbeat now i d).1.jobs ≡ d.jobs
unfolding heartbeat renew_lease
jobs-heartbeat now i d = elim (Option-cases (head? (filter (is_running_attempt i) d.attempts))) [
  | inl e ↦ rw e
  | inr (a, e) ↦ rw e
]

-- A running attempt belongs to a job that a worker runs.
running-works :
    (d : Db) (i : ℕ) (a : JobAttempt)
    → find_attempt i d ≡ some a
    → is_running a.status ≡ true
    → IsBalanced d
    → (a' : JobAttempt) (j : Job) → find_attempt i d ≡ some a'
    → find_job a'.job d ≡ some j
    → works j.status ≡ true
running-works d i a e live b a' j e' f =
    let same : a' ≡ a = cc (e, e') in
    let (k, g, _, _, w, _) = attempt_job d i a e live b in
    let p : k ≡ j = cc (f, g, same) in subst (λ (x : Job). works x.status ≡ true) p w

-- A step is a dispatch, or a history without dispatches.
pub Step-rows :
    {w v : World} (starts : Bool)
    → IsBalanced w.db
    → Step w v
    → Edits works starts w.db.jobs v.db.jobs ⊎ IsDispatch w v
Step-rows {w} starts b (Step.submit now generated s) =
    inl (submit_job-History works starts now w.db generated s)
Step-rows {w} starts b (Step.refresh now t) = inl (rw (refresh-eq now t w.db) Edits.start)
Step-rows {w} starts b (Step.dispatch to_text locked now t) = inr (to_text, locked, now, t, refl)
Step-rows {w} starts b (Step.publish broker now i) =
    inl (rw (jobs-publish_event broker now i w) Edits.start)
Step-rows {w} starts b (Step.claim now hostname i) =
    inl (claim_job-History works starts now w.db hostname i)
Step-rows {w} starts b (Step.beat now i) = inl (rw (jobs-heartbeat now i w.db) Edits.start)
Step-rows {w} starts b (Step.complete now i a result e live) =
    inl (complete_job-History works starts now w.db i (running-works w.db i a e live b) result)
Step-rows {w} starts b (Step.fail now i a exc t traceback e live) =
    inl (fail_job-History works starts now w.db i (running-works w.db i a e live b) exc t traceback)
Step-rows {w} starts b (Step.fails now i a exc t e live) =
    inl (fail_attempt-History works starts now w.db i (running-works w.db i a e live b) exc t)
Step-rows {w} starts b (Step.promote locked now limit) =
    inl (promote_ready_retries-History works starts now w.db locked limit b.keyed)
Step-rows {w} starts b (Step.cancel now i) = inl (cancel_job-History works starts now w.db i)
Step-rows {w} starts b (Step.reap now i) = inl (
    reconcile_attempt-History works starts now i w.db
      (λ a j e live f. running-works w.db i a e live b a j e f))
Step-rows {w} starts b (Step.recover now i) = inl (recover_queued-History works starts now w.db i)
Step-rows {w} starts b (Step.replay now generated i) =
    inl (replay_dead_letter-History works starts now w.db generated i)

pub Step-Edits : {w v : World} → IsBalanced w.db → Step w v → Edits works true w.db.jobs v.db.jobs
Step-Edits {w} b s = elim (Step-rows true b s) [
  | inl e ↦ e
  | inr (to_text, locked, now, t, p) ↦
      subst (λ (u : World). Edits works true w.db.jobs u.db.jobs) (sym p)
        (dispatch_next-History works now w.db to_text locked t b)
]

pub Reach-Edits : {w v : World} → IsBalanced w.db → Reach w v → Edits works true w.db.jobs v.db.jobs
Reach-Edits b here = Edits.start
Reach-Edits b (next r s) = Edits-trans (Reach-Edits b r) (Step-Edits (Reach-IsBalanced b r) s)

-- In every state reached from tenants without jobs by steps in which no attempt is completed or
-- failed after it has ended, `attempt_count` of a job is at most 4, and at most 3 while the job
-- waits, is queued or waits for a retry.
pub attempts-le-cap :
    {tenants : List Tenant} {w : World} (i : ℕ) (j : Job)
    → Reach (start tenants) w
    → find_job i w.db ≡ some j
    → (j.attempt_count ≤ 4) × (j.attempt_count ≤ attempt_cap j.status)
attempts-le-cap {tenants} {w} i j r e =
    let rows = Edits-IsBounded (Reach-Edits (empty-IsBalanced tenants) r) tt in
    let fits = All-find job_pk IsBounded i w.db.jobs rows e in
    (omega (arith, fits, attempt_cap-le j.status), fits)

-- From a balanced state and by steps in which no attempt is completed or failed after it has
-- ended, which the code does not check, a job that is in the table stays there, and its status
-- moves along the edges of `Edge` alone: those of ALLOWED_TRANSITIONS, and QUEUED to CANCELLED,
-- CANCEL_REQUESTED to RETRY_WAIT and CANCEL_REQUESTED to FAILED_FINAL.
pub status-Walk :
    {w v : World} (i : ℕ) (x : Job)
    → IsBalanced w.db
    → Reach w v
    → find_job i w.db ≡ some x
    → (y : Job) × (find_job i v.db ≡ some y) × Walk x.status y.status
status-Walk i x b r e = Edits-Walk i x (Reach-Edits b r) e

-- From a balanced state and by steps in which no attempt is completed or failed after it has
-- ended, no service ever deletes a job, rewrites its id, tenant, type, payload, priority, key or
-- time of creation, or lowers its `attempt_count`.
pub job-SameIdentity :
    {w v : World} (i : ℕ) (x : Job)
    → IsBalanced w.db
    → Reach w v
    → find_job i w.db ≡ some x
    → (y : Job) × (find_job i v.db ≡ some y) × SameIdentity x y
job-SameIdentity i x b r e = Edits-SameIdentity i x (Reach-Edits b r) e

-- From a balanced state, a job that has succeeded, failed for good or been cancelled has the same
-- row in every state that follows by steps in which no attempt is completed or failed after it has
-- ended, which the code does not check.
pub terminal-Stays :
    {w v : World} (i : ℕ) (x : Job)
    → IsBalanced w.db
    → Reach w v
    → find_job i w.db ≡ some x
    → is_terminal x.status ≡ true
    → find_job i v.db ≡ some x
terminal-Stays i x b r e t =
    let (y, f, s) = Edits-Stays i x (Reach-Edits b r) e in f ∙ ap some (s t)
