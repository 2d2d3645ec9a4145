-- ===== src/System/Limit.antt =====
-- The concurrency limit of a tenant in the running system.
use mt_jobs.Base.{
  ℕ, some, List, [], ◌≡◌, ◌≤◌, refl, count, arith, Option-cases, Bool-cases, inl, inr,
}
use mt_jobs.Base.Table.{find}
use mt_jobs.Models.Tenant.{Tenant}
use mt_jobs.Models.Attempt.{is_running}
use mt_jobs.Store.Db.{Db, find_tenant, find_state, find_attempt}
use mt_jobs.Services.Outbox.{World}
use mt_jobs.Services.Reconciliation.{reconcile_attempt}
use mt_jobs.Capacity.Balance.{IsBalanced, occupies, of_tenant, active_of}
use mt_jobs.Capacity.Complete.{complete_job-succeeds}
use mt_jobs.Capacity.Fail.{fail_job-Settled, fail_attempt-Settled, reconcile_attempt-Settled}
use mt_jobs.Capacity.Refresh.{refresh-eq, refresh-IsBalanced, heartbeat-IsBalanced}
use mt_jobs.Capacity.Claim.{claim_job-IsBalanced}
use mt_jobs.Capacity.Promote.{promote_ready_retries-IsBalanced}
use mt_jobs.Capacity.Dispatch.{dispatch_next-IsBalanced}
use mt_jobs.Capacity.Publish.{publish_event-IsBalanced}
use mt_jobs.Capacity.Cancel.{cancel_job-IsBalanced, recover_queued-IsBalanced}
use mt_jobs.Capacity.Submit.{submit_job-IsBalanced, replay_dead_letter-IsBalanced}
use mt_jobs.System.Steps.{Step, Reach, here, next}

-- The reaper does nothing to an attempt that has ended.
reconcile_attempt-IsBalanced :
    (now i : ℕ) (d : Db) → IsBalanced d → IsBalanced (reconcile_attempt now i d).1
reconcile_attempt-IsBalanced now i d b = elim (Option-cases (find_attempt i d)) [
  | inl e ↦ unfold reconcile_attempt in rw e b
  | inr (a, e) ↦ elim (Bool-cases (is_running a.status)) [
    | inr ended ↦ unfold reconcile_attempt in rw (e, ended) b
    | inl live ↦ let (j, f, done) = reconcile_attempt-Settled d i a e live b now in done.1
  ]
]

-- Every step keeps the slots balanced.
pub Step-IsBalanced : {w v : World} → Step w v → IsBalanced w.db → IsBalanced v.db
Step-IsBalanced {w} (Step.submit now generated s) b = submit_job-IsBalanced now generated s w.db b
Step-IsBalanced {w} (Step.refresh now t) b =
    rw (refresh-eq now t w.db) (refresh-IsBalanced now t w.db b)
Step-IsBalanced {w} (Step.dispatch to_text locked now t) b =
    dispatch_next-IsBalanced to_text locked now t w.db b
Step-IsBalanced {w} (Step.publish broker now i) b = publish_event-IsBalanced broker now i w b
Step-IsBalanced {w} (Step.claim now hostname i) b = claim_job-IsBalanced now hostname i w.db b
Step-IsBalanced {w} (Step.beat now i) b = heartbeat-IsBalanced now i w.db b
Step-IsBalanced {w} (Step.complete now i a result e live) b =
    let (d, run, bal, _) = complete_job-succeeds w.db i a e live b now result in rw run bal
Step-IsBalanced {w} (Step.fail now i a exc t traceback e live) b =
    let (j, f, done) = fail_job-Settled w.db i a e live b now exc t traceback in done.1
Step-IsBalanced {w} (Step.fails now i a exc t e live) b =
    let (j, f, done) = fail_attempt-Settled w.db i a e live b now exc t in done.1
Step-IsBalanced {w} (Step.promote locked now limit) b =
    promote_ready_retries-IsBalanced locked now limit w.db b
Step-IsBalanced {w} (Step.cancel now i) b = cancel_job-IsBalanced now i w.db b
Step-IsBalanced {w} (Step.reap now i) b = reconcile_attempt-IsBalanced now i w.db b
Step-IsBalanced {w} (Step.recover now i) b = recover_queued-IsBalanced now i w.db b
Step-IsBalanced {w} (Step.replay now generated i) b =
    replay_dead_letter-IsBalanced now generated i w.db b

pub Reach-IsBalanced : {w v : World} → IsBalanced w.db → Reach w v → IsBalanced v.db
Reach-IsBalanced b here = b
Reach-IsBalanced b (next r s) = Step-IsBalanced s (Reach-IsBalanced b r)

-- A database with tenants and nothing else.
abbrev pub empty : List Tenant → Db
empty tenants = record {
  tenants = tenants;
  jobs = [];
  attempts = [];
  reservations = [];
  locks = [];
  outbox = [];
  dead_letters = [];
  scheduler_states = [];
  next_uuid = 0;
}

abbrev pub start : List Tenant → World
start tenants = record { db = empty tenants; queue = [] }

pub empty-IsBalanced : (tenants : List Tenant) → IsBalanced (empty tenants)
unfolding find count
empty-IsBalanced tenants = record {
  owned = λ i t. refl;
  counted = λ t. refl;
  running = λ i. refl;
  load = λ t. refl;
  within = λ t tenant e. omega arith;
  keyed = tt;
}

-- In every state reached from tenants without jobs by steps of the services in which no attempt is
-- completed or failed after it has ended, which the code does not check, at most
-- `max_concurrent_jobs` jobs of a tenant are queued, executing or asked to cancel.
pub jobs-le-limit :
    {tenants : List Tenant} {w : World} (t : ℕ) (tenant : Tenant)
    → Reach (start tenants) w
    → find_tenant t w.db ≡ some tenant
    → count (occupies t) w.db.jobs ≤ tenant.max_concurrent_jobs
jobs-le-limit {tenants} {w} t tenant r e =
    let b = Reach-IsBalanced (empty-IsBalanced tenants) r in
    omega (arith, b.load t, b.counted t, b.within t tenant e)

-- In every state reached from tenants without jobs by steps in which no attempt is completed or
-- failed after it has ended, which the code does not check, the counter `active_reservations` of a
-- tenant is the number of its reservation rows, and 0 where the tenant has no scheduler state.
pub active-eq-reservations :
    {tenants : List Tenant} {w : World} (t : ℕ)
    → Reach (start tenants) w
    → active_of (find_state t w.db) ≡ count (of_tenant t) w.db.reservations
active-eq-reservations {tenants} t r = (Reach-IsBalanced (empty-IsBalanced tenants) r).counted t
