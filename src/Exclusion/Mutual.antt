-- ===== src/Exclusion/Mutual.antt =====
-- Jobs that ask for the same resource in the running system.
use mt_jobs.Base.{
  ℕ, String, true, false, some, List, [], ◌∷◌, ◌≡◌, ◌≢◌, ◌≤◌, refl, count, any, arith, Option-cases,
  Bool-cases, inl, inr,
}
use mt_jobs.Base.Table.{find}
use mt_jobs.Models.Json.{Json}
use mt_jobs.Models.Job.{Job}
use mt_jobs.Models.Overlap.{JobOverlapLock}
use mt_jobs.Models.Outbox.{is_pending}
use mt_jobs.Models.Tenant.{Tenant}
use mt_jobs.Store.Db.{find_job, outbox_pk}
use mt_jobs.Services.Outbox.{World, Broker, publish_event, send_event}
use mt_jobs.Capacity.Balance.{holds}
use mt_jobs.System.Steps.{Step, Reach, here, next}
use mt_jobs.System.Limit.{start}
use mt_jobs.Exclusion.Rows.{guards}
use mt_jobs.Exclusion.Held.{asked, guards_for}
use mt_jobs.Exclusion.Ends.{
  IsHeld, refresh-IsHeld, complete_job-IsHeld, fail_job-IsHeld, fail_attempt-IsHeld,
  reconcile_attempt-IsHeld, recover_queued-IsHeld, cancel_job-IsHeld,
}
use mt_jobs.Exclusion.Starts.{
  claim_job-IsHeld, heartbeat-IsHeld, submit_job-IsHeld, replay_dead_letter-IsHeld,
  promote_ready_retries-IsHeld, dispatch_next-IsHeld,
}
use mt_jobs.Exclusion.Locks.{locks-le-one}

-- The dispatcher converts keys to text in one way.
abbrev pub Converts : (Json → String) → {w v : World} → Step w v → Type 0
Converts f (Step.dispatch to_text locked now t) = to_text ≡ f
Converts f _ = Unit

abbrev pub ConvertsAll : (Json → String) → {w v : World} → Reach w v → Type 0
ConvertsAll f here = Unit
ConvertsAll f (next r s) = Converts f s × ConvertsAll f r

module _ (f : Json → String) where
  publish_event-IsHeld :
      (broker : Broker) (now i : ℕ) (w : World)
      → IsHeld f w.db
      → IsHeld f (publish_event broker now i w).1.db
  unfolding publish_event send_event
  publish_event-IsHeld broker now i w h = elim (Option-cases (find outbox_pk i w.db.outbox)) [
    | inl e ↦ rw e h
    | inr (event, e) ↦ elim (Bool-cases (is_pending event.status)) [
      | inr sent ↦ rw (e, sent) h
      | inl waits ↦ elim (Option-cases (broker event.job)) [
        | inr (x, down) ↦ rw (e, waits, down) h
        | inl up ↦ rw (e, waits, up) h
      ]
    ]
  ]

  Step-IsHeld : {w v : World} (s : Step w v) → Converts f s → IsHeld f w.db → IsHeld f v.db
  Step-IsHeld {w} (Step.submit now generated s) c h = submit_job-IsHeld f now generated s w.db h
  Step-IsHeld {w} (Step.refresh now t) c h = refresh-IsHeld f now t w.db h
  Step-IsHeld {w} (Step.dispatch to_text locked now t) c h =
      rw c (dispatch_next-IsHeld f now w.db h locked t)
  Step-IsHeld {w} (Step.publish broker now i) c h = publish_event-IsHeld broker now i w h
  Step-IsHeld {w} (Step.claim now hostname i) c h = claim_job-IsHeld f now hostname i w.db h
  Step-IsHeld {w} (Step.beat now i) c h = heartbeat-IsHeld f now i w.db h
  Step-IsHeld {w} (Step.complete now i a result e live) c h =
      complete_job-IsHeld f now i result w.db h
  Step-IsHeld {w} (Step.fail now i a exc t traceback e live) c h =
      fail_job-IsHeld f now i exc t traceback w.db h
  Step-IsHeld {w} (Step.fails now i a exc t e live) c h = fail_attempt-IsHeld f now i exc t w.db h
  Step-IsHeld {w} (Step.promote locked now limit) c h =
      promote_ready_retries-IsHeld f locked now limit w.db h
  Step-IsHeld {w} (Step.cancel now i) c h = cancel_job-IsHeld f now i w.db h
  Step-IsHeld {w} (Step.reap now i) c h = reconcile_attempt-IsHeld f now i w.db h
  Step-IsHeld {w} (Step.recover now i) c h = recover_queued-IsHeld f now i w.db h
  Step-IsHeld {w} (Step.replay now generated i) c h =
      replay_dead_letter-IsHeld f now generated i w.db h

  Reach-IsHeld : {w v : World} (r : Reach w v) → ConvertsAll f r → IsHeld f w.db → IsHeld f v.db
  Reach-IsHeld here c h = h
  Reach-IsHeld (next r s) (c, cs) h = Step-IsHeld s c (Reach-IsHeld r cs h)

none-guards :
    (i t : ℕ) (k : String) (locks : List JobOverlapLock)
    → count (guards t k) locks ≡ 0
    → any (guards_for i t k) locks ≡ false
unfolding count any
none-guards i t k [] e = refl
none-guards i t k (l ∷ rest) e = ground (arith, none-guards i t k rest)

-- One row guards for one job.
one-job :
    (i j t : ℕ) (k : String) (locks : List JobOverlapLock)
    → count (guards t k) locks ≤ 1
    → any (guards_for i t k) locks ≡ true
    → any (guards_for j t k) locks ≡ true
    → i ≡ j
unfolding count any
one-job i j t k [] c a b = cc a
one-job i j t k (l ∷ rest) c a b =
    ground (arith, one-job i j t k rest, none-guards i t k rest, none-guards j t k rest)

-- In every state reached from tenants without jobs by steps in which the dispatcher converts keys
-- to text in one way and no attempt is completed or failed after it has ended, of two jobs of a
-- tenant whose `overlap_key` asks for the same resource at most one is queued, executing or asked
-- to cancel.
pub same_key-excludes :
    {tenants : List Tenant} {w : World} (to_text : Json → String) (r : Reach (start tenants) w)
    → ConvertsAll to_text r
    → (i j : ℕ) (x y : Job) (k : String) → i ≢ j
    → find_job i w.db ≡ some x
    → find_job j w.db ≡ some y
    → x.tenant ≡ y.tenant
    → asked to_text x ≡ some k
    → asked to_text y ≡ some k
    → holds x.status ≡ true
    → holds y.status ≡ false
unfolding find
same_key-excludes {w = w} to_text r c i j x y k apart f g p a b s =
    elim (Bool-cases (holds y.status)) [
      | inr free ↦ free
      | inl t ↦
          let h = Reach-IsHeld to_text r c (λ i j k e. cc e) in
          absurd (
            apart (
              one-job i j x.tenant k w.db.locks (locks-le-one x.tenant k r) (h i x k f s a)
                (rw p (h j y k g t b))))
    ]
