-- ===== src/Workers/Drains.antt =====
-- `publish_pending` (jobs/services/outbox.py) while the broker accepts all messages.
use mt_jobs.Base.{
  ℕ, true, false, none, some, List, [], ◌∷◌, ◌≡◌, ◌≤◌, ◌==◌, refl, subst, filter, map, count, All,
  arith, Bool-cases, inl, inr,
}
use mt_jobs.Base.Table.{find, find-pk, IsKeyed-found, All-find, All-map, All-filter, All-take}
use mt_jobs.Base.Sort.{order_by, All-order_by}
use mt_jobs.Base.Queries.{
  All-selected, All-ordered, All-mapped, All-unmapped, length-mapped, length-order_by,
  length-filter, take_all,
}
use mt_jobs.Models.Job.{Job}
use mt_jobs.Models.Outbox.{JobOutbox, is_pending}
use mt_jobs.Models.Tenant.{Tenant}
use mt_jobs.Domain.Exceptions.{ok}
use mt_jobs.Store.Db.{Db, find_job, outbox_pk}
use mt_jobs.Services.Outbox.{
  World, Broker, publish_all, publish_pending, pending_events, is_due, created_before,
}
use mt_jobs.Tasks.{publish_outbox}
use mt_jobs.System.Steps.{Reach, Reach-trans}
use mt_jobs.System.Limit.{start}
use mt_jobs.System.Batches.{tasks-Reach}
use mt_jobs.Workers.Delivery.{waits, sent, owed}
use mt_jobs.Workers.Events.{IsTabled, Reach-IsTabled}
use mt_jobs.Workers.Messages.{messages, owed-le-messages}
use mt_jobs.Workers.Sends.{HasEvent, IsSent, Sends, publish_all-Sends}

due-HasEvent :
    (now limit : ℕ) (w : World)
    → IsTabled w.db.next_uuid w.db.outbox
    → All (λ i. HasEvent i w) (pending_events now limit w.db)
unfolding pending_events
due-HasEvent now limit w (k, _) =
    All-take (λ i. HasEvent i w) limit _
      (All-mapped (λ i. HasEvent i w) (λ (e : JobOutbox). e.id) _
        (All-order_by created_before (λ (e : JobOutbox). HasEvent e.id w) _
          (All-map _ (λ (e : JobOutbox). HasEvent e.id w) _ (λ e (h, _). (e, h))
            (All-filter (λ e. find outbox_pk e.id w.db.outbox ≡ some e) (is_due now) w.db.outbox
              (IsKeyed-found outbox_pk w.db.outbox k)))))

-- Where the limit does not cut the query, what holds of its ids holds of all due events.
each_due :
    (P : ℕ → Type 0) (now limit : ℕ) (d : Db)
    → count (is_due now) d.outbox ≤ limit
    → All P (pending_events now limit d)
    → All (λ (e : JobOutbox). is_due now e ≡ true → P e.id) d.outbox
unfolding pending_events
each_due P now limit d few a =
    let rows = filter (is_due now) d.outbox in
    let sorted = order_by created_before rows in
    let ids = map (λ (x : JobOutbox). x.id) sorted in
    let whole = take_all limit ids (
      omega (
        arith,
        length-mapped (λ (x : JobOutbox). x.id) sorted,
        length-order_by created_before rows,
        length-filter (is_due now) d.outbox,
        few,
      )) in
    All-selected (λ (x : JobOutbox). P x.id) (is_due now) d.outbox
      (All-ordered (λ (x : JobOutbox). P x.id) created_before rows
        (All-unmapped P (λ (x : JobOutbox). x.id) sorted (rw whole at a)))

no-waits : (i : ℕ) (xs : List JobOutbox) → All (λ e. waits i e ≡ false) xs → count (waits i) xs ≡ 0
unfolding count
no-waits i [] a = refl
no-waits i (x ∷ xs) (h, a) = ground (arith, h, no-waits i xs a)

module _ {tenants : List Tenant} {w : World} (broker : Broker) (now i : ℕ) (j : Job)
    (up : (k : ℕ) → broker k ≡ none) (reached : Reach (start tenants) w)
    (stands : find_job i w.db ≡ some j)
    (due : All (λ e. waits i e ≡ true → e.available_at ≤ now) w.db.outbox)
    (few : count (is_due now) w.db.outbox ≤ 100) where
  abbrev drained : World
  drained = (publish_outbox broker now w).1

  passes :
      Sends w (publish_outbox broker now w)
      × All (λ (e : JobOutbox). is_due now e ≡ true → IsSent e.id drained) w.db.outbox
  unfolding publish_outbox publish_pending
  passes =
      let ids = pending_events now 100 w.db in
      let (p, all) =
        publish_all-Sends broker now up ids w (due-HasEvent now 100 w (Reach-IsTabled reached)) in
      (p, each_due (λ k. IsSent k (publish_all broker now ids w).1) now 100 w.db few all)

  -- No event of the job waits any more.
  settled : (e : JobOutbox) → find outbox_pk e.id drained.db.outbox ≡ some e → waits i e ≡ false
  settled e f =
      let (p, all) = passes in
      let (x, g, own, at) = p.back e.id e f in
      elim (Bool-cases (is_pending x.status)) [
        | inr done ↦
            let (y, h, sent) = p.stays e.id (x, g, done) in
            let same : y ≡ e = cc (f, h) in ground (arith, same, sent)
        | inl pending ↦ elim (Bool-cases (x.job == i)) [
          | inr other ↦ ground (arith, own, other)
          | inl mine ↦
              let early =
                All-find outbox_pk _ e.id w.db.outbox due g (ground (arith, mine, pending)) in
              let (y, h, sent) =
                subst (λ k. IsSent k drained) (find-pk outbox_pk e.id w.db.outbox g)
                  (All-find outbox_pk _ e.id w.db.outbox all g (ground (arith, pending, early))) in
              let same : y ≡ e = cc (f, h) in ground (arith, same, sent)
        ]
      ]

  -- In a state reached from tenants without jobs by steps in which no attempt is completed or
  -- failed after it has ended, where at most 100 events are due, those of a job that wait are
  -- among them, and the broker accepts every message, `publish_outbox` raises nothing, leaves the
  -- job as it is, no event of it waits any more, and the broker has accepted at least as many
  -- messages for the job as attempts of it have begun, and one more if it is queued.
  pub publish_outbox-Drains :
      ((publish_outbox broker now w).0 ≡ ok tt)
      × (find_job i drained.db ≡ some j)
      × (count (waits i) drained.db.outbox ≡ 0)
      × (owed j ≤ messages i drained.queue)
  publish_outbox-Drains =
      let (p, _) = passes in
      let (_, _, run, _) = tasks-Reach (λ v. "") (λ k. false) broker now w in
      let later = Reach-trans reached run in
      let here : find_job i drained.db ≡ some j = rw p.jobs stands in
      let none_waits : count (waits i) drained.db.outbox ≡ 0 = no-waits i drained.db.outbox (
        All-map _ (λ e. waits i e ≡ false) drained.db.outbox settled
          (IsKeyed-found outbox_pk drained.db.outbox (Reach-IsTabled later).0)) in
      let (_, le) = owed-le-messages i j later here in
      (p.quiet, here, none_waits, omega (arith, le, none_waits))
