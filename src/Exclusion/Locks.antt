-- ===== src/Exclusion/Locks.antt =====
-- The locks of the running system.
use mt_jobs.Base.{
  ℕ, String, List, sym, subst, ◌≤◌, count, arith, Option-cases, Bool-cases, inl, inr,
}
use mt_jobs.Base.Table.{find}
use mt_jobs.Models.Outbox.{is_pending}
use mt_jobs.Models.Tenant.{Tenant}
use mt_jobs.Store.Db.{outbox_pk}
use mt_jobs.Services.Outbox.{World, Broker, publish_event, send_event}
use mt_jobs.System.Steps.{Reach}
use mt_jobs.System.Limit.{start}
use mt_jobs.System.Frame.{Frame}
use mt_jobs.System.Frame.Claim.{claim_job-tables}
use mt_jobs.System.Frame.Others.{Reach-keeps}
use mt_jobs.Capacity.Release.{locked_by}
use mt_jobs.Exclusion.Rows.{IsExclusive, guards, reject-IsExclusive}
use mt_jobs.Exclusion.Dispatch.{heartbeat-IsExclusive, dispatch_next-IsExclusive}

publish_event-IsExclusive :
    (broker : Broker) (now i : ℕ) (w : World)
    → IsExclusive w.db
    → IsExclusive (publish_event broker now i w).1.db
unfolding publish_event send_event
publish_event-IsExclusive broker now i w h = elim (Option-cases (find outbox_pk i w.db.outbox)) [
  | inl e ↦ rw e h
  | inr (event, e) ↦ elim (Bool-cases (is_pending event.status)) [
    | inr sent ↦ rw (e, sent) h
    | inl waits ↦ elim (Option-cases (broker event.job)) [
      | inr (x, down) ↦ rw (e, waits, down) h
      | inl up ↦ rw (e, waits, up) h
    ]
  ]
]

-- The other services leave the locks alone or give those of a job back.
lock_frame : Frame IsExclusive
lock_frame = record {
  other = λ d e l r o _ h.
      subst (λ locks. (t : ℕ) (k : String) → count (guards t k) locks ≤ 1) (sym l) h;
  release = λ i d e l r o _ h.
      subst (λ locks. (t : ℕ) (k : String) → count (guards t k) locks ≤ 1) (sym l)
        (reject-IsExclusive (locked_by i) d.locks h);
}

Reach-IsExclusive : {w v : World} → IsExclusive w.db → Reach w v → IsExclusive v.db
Reach-IsExclusive =
    Reach-keeps IsExclusive lock_frame heartbeat-IsExclusive
      (λ to_text locked now t d h. dispatch_next-IsExclusive now d h to_text locked t)
      publish_event-IsExclusive
      (λ now hostname i d h.
        let (l, _, _) = claim_job-tables now hostname i d in
        subst (λ locks. (t : ℕ) (k : String) → count (guards t k) locks ≤ 1) (sym l) h)

-- In every state reached from tenants without jobs by steps in which no attempt is completed or
-- failed after it has ended, at most one lock of tenant scope guards a resource key of a tenant.
pub locks-le-one :
    {tenants : List Tenant} {w : World} (t : ℕ) (k : String)
    → Reach (start tenants) w
    → count (guards t k) w.db.locks ≤ 1
unfolding count
locks-le-one t k r = Reach-IsExclusive (λ t k. omega arith) r t k
