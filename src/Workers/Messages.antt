-- ===== src/Workers/Messages.antt =====
-- The messages of the running system.
use mt_jobs.Base.{
  ℕ, true, false, some, List, [], ◌∷◌, ◌≡◌, ◌≤◌, ◌+◌, ◌==◌, refl, sym, ap, subst, ◌∙◌, count,
  filter, head?, arith, Option-cases, inl, inr,
}
use mt_jobs.Base.Table.{find, save, find-key, find-pk, All-find, count-append, count-save}
use mt_jobs.Models.Job.{Job}
use mt_jobs.Models.Outbox.{JobOutbox, is_pending}
use mt_jobs.Models.Tenant.{Tenant}
use mt_jobs.Store.Db.{Db, job_pk, outbox_pk, find_job}
use mt_jobs.Services.Outbox.{World, Broker, publish_event, published_event}
use mt_jobs.Services.Heartbeat.{heartbeat, renew_lease, is_running_attempt}
use mt_jobs.Capacity.Balance.{IsBalanced, works}
use mt_jobs.Lifecycle.Moves.{Edits}
use mt_jobs.System.Steps.{Step, Reach, here, next, IsDispatch}
use mt_jobs.System.Limit.{Reach-IsBalanced, start, empty-IsBalanced}
use mt_jobs.System.Life.{Step-rows}
use mt_jobs.System.Frame.{Frame}
use mt_jobs.System.Frame.Claim.{claim_job-tables}
use mt_jobs.System.Frame.Others.{Step-keeps}
use mt_jobs.Workers.Outbox.{publish_event-cases, sent_event}
use mt_jobs.Workers.Delivery.{
  about, waits, sent, owed, Covered, AllCovered, Covered-Edits, Covered-more, dispatch_next-Owes,
}

abbrev pub messages : ℕ → List ℕ → ℕ
messages i queue = count (λ k. k == i) queue

-- Every job has its events, and every event that was sent is a message.
record IsDelivering (w : World) : Type 0 where
  covered : AllCovered w.db
  queued : (i : ℕ) → messages i w.queue ≡ count (sent i) w.db.outbox

outbox_frame : (o : List JobOutbox) → Frame (λ d. d.outbox ≡ o)
outbox_frame o = record { other = λ d e l r b _ h. b ∙ h; release = λ i d e l r b _ h. b ∙ h }

heartbeat-outbox :
    (o : List JobOutbox) (now i : ℕ) (d : Db) → d.outbox ≡ o → (heartbeat now i d).1.outbox ≡ o
unfolding heartbeat renew_lease
heartbeat-outbox o now i d h =
    elim (Option-cases (head? (filter (is_running_attempt i) d.attempts))) [
      | inl e ↦ rw e h
      | inr (a, e) ↦ rw e h
    ]

sent-IsDelivering :
    (now i : ℕ) (e : JobOutbox) (w : World)
    → find outbox_pk i w.db.outbox ≡ some e
    → is_pending e.status ≡ true
    → IsDelivering w
    → IsDelivering (sent_event now e w)
sent-IsDelivering now i e w stands waits h =
    let at = find-key outbox_pk i e.id w.db.outbox stands refl in
    let box = save outbox_pk (published_event now e) w.db.outbox in
    record {
      covered =
          Covered-more w.db.outbox box w.db.jobs
            (λ k.
              ground
                (arith, count-save outbox_pk (about k) (published_event now e) e w.db.outbox at))
            h.covered;
      queued = λ k. ground (
        arith,
        waits,
        h.queued k,
        count-append (λ (n : ℕ). n == k) w.queue e.job,
        count-save outbox_pk (sent k) (published_event now e) e w.db.outbox at,
      );
    }

publish_event-IsDelivering :
    (broker : Broker) (now i : ℕ) (w : World)
    → IsDelivering w
    → IsDelivering (publish_event broker now i w).1
publish_event-IsDelivering broker now i w h = elim (publish_event-cases broker now i w) [
  | inl (x, run) ↦ rw run h
  | inr (inl (e, _, _, run)) ↦ rw run h
  | inr (inr (e, stands, waits, _, run)) ↦ rw run (sent-IsDelivering now i e w stands waits h)
]

dispatch-IsDelivering :
    (w v : World) → IsBalanced w.db → IsDispatch w v → IsDelivering w → IsDelivering v
dispatch-IsDelivering w v b (to_text, locked, now, t, p) h =
    let (c, q) = dispatch_next-Owes now w.db h.covered to_text locked t b in
    subst IsDelivering (sym p) (record { covered = c; queued = λ i. h.queued i ∙ sym (q i) })

quiet-IsDelivering :
    (w v : World)
    → v.db.outbox ≡ w.db.outbox
    → v.queue ≡ w.queue
    → Edits works false w.db.jobs v.db.jobs
    → IsDelivering w
    → IsDelivering v
quiet-IsDelivering w v box queue rows h = record {
  covered = rw box (Covered-Edits w.db.outbox rows h.covered);
  queued = λ i. rw (box, queue) (h.queued i);
}

others-IsDelivering :
    (w v : World)
    → IsBalanced w.db
    → Step w v
    → v.db.outbox ≡ w.db.outbox
    → v.queue ≡ w.queue
    → IsDelivering w
    → IsDelivering v
others-IsDelivering w v b s box queue h = elim (Step-rows false b s) [
  | inr d ↦ dispatch-IsDelivering w v b d h
  | inl rows ↦ quiet-IsDelivering w v box queue rows h
]

Step-IsDelivering : {w v : World} → IsBalanced w.db → Step w v → IsDelivering w → IsDelivering v
Step-IsDelivering {w} {v} b s h =
    elim (Step-keeps (λ d. d.outbox ≡ w.db.outbox) (outbox_frame w.db.outbox)
      (heartbeat-outbox w.db.outbox) s refl) [
        | inr (inr (inl d)) ↦ dispatch-IsDelivering w v b d h
        | inr (inr (inr (now, hostname, i, p))) ↦
            let (_, _, box) = claim_job-tables now hostname i w.db in
            others-IsDelivering w v b s (ap (λ (u : World). u.db.outbox) p ∙ box)
              (ap (λ (u : World). u.queue) p) h
        | inr (inl (broker, now, i, p)) ↦
            subst IsDelivering (sym p) (publish_event-IsDelivering broker now i w h)
        | inl (box, queue) ↦ others-IsDelivering w v b s box queue h
      ]

Reach-IsDelivering : {w v : World} → IsBalanced w.db → Reach w v → IsDelivering w → IsDelivering v
Reach-IsDelivering b here h = h
Reach-IsDelivering b (next r s) h =
    Step-IsDelivering (Reach-IsBalanced b r) s (Reach-IsDelivering b r h)

sent-add-waits :
    (i : ℕ) (o : List JobOutbox) → count (about i) o ≡ count (sent i) o + count (waits i) o
unfolding count
sent-add-waits i [] = refl
sent-add-waits i (e ∷ o) = ground (arith, sent-add-waits i o)

start-IsDelivering : (tenants : List Tenant) → IsDelivering (start tenants)
unfolding count
start-IsDelivering tenants = record { covered = tt; queued = λ i. refl }

-- In every state reached from tenants without jobs by steps in which no attempt is completed or
-- failed after it has ended, the broker has accepted as many messages for a job as events of the
-- job are marked as sent, and these with the events that still wait are at least as many as the
-- attempts that the job has begun, and one more while it is queued: no queued job is left without
-- a message, sent or to be sent.
pub owed-le-messages :
    {tenants : List Tenant} {w : World} (i : ℕ) (j : Job)
    → Reach (start tenants) w
    → find_job i w.db ≡ some j
    → (messages i w.queue ≡ count (sent i) w.db.outbox)
      × (owed j ≤ messages i w.queue + count (waits i) w.db.outbox)
owed-le-messages {tenants} {w} i j r e =
    let h = Reach-IsDelivering (empty-IsBalanced tenants) r (start-IsDelivering tenants) in
    let own =
      subst (λ n. owed j ≤ count (about n) w.db.outbox) (find-pk job_pk i w.db.jobs e)
        (All-find job_pk (Covered w.db.outbox) i w.db.jobs h.covered e) in
    (h.queued i, omega (arith, own, h.queued i, sent-add-waits i w.db.outbox))
