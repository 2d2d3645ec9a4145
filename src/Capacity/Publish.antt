-- ===== src/Capacity/Publish.antt =====
-- `publish_event` (jobs/services/outbox.py) and the slots.
use mt_jobs.Base.{ℕ, refl, Option-cases, Bool-cases, inl, inr}
use mt_jobs.Base.Table.{find}
use mt_jobs.Models.Outbox.{is_pending}
use mt_jobs.Store.Db.{outbox_pk}
use mt_jobs.Services.Outbox.{World, Broker, publish_event, send_event}
use mt_jobs.Capacity.Balance.{IsBalanced}
use mt_jobs.Capacity.Moves.{same-IsBalanced}

pub publish_event-IsBalanced :
    (broker : Broker) (now i : ℕ) (w : World)
    → IsBalanced w.db
    → IsBalanced (publish_event broker now i w).1.db
unfolding publish_event send_event
publish_event-IsBalanced broker now i w b = elim (Option-cases (find outbox_pk i w.db.outbox)) [
  | inl e ↦ rw e b
  | inr (event, e) ↦ elim (Bool-cases (is_pending event.status)) [
    | inr sent ↦ rw (e, sent) b
    | inl waits ↦ elim (Option-cases (broker event.job)) [
      | inr (x, down) ↦ rw (e, waits, down) b
      | inl up ↦
          rw (e, waits, up)
            (same-IsBalanced w.db _ refl refl (λ i t. refl) (λ t. refl) (λ i. refl) (λ t. refl) b)
    ]
  ]
]
