-- ===== src/Workers/Outbox.antt =====
-- Sending an outbox event (jobs/services/outbox.py).
use mt_jobs.Base.{
  ℕ, true, false, some, none, [], ◌∷◌, ◌++◌, ◌≡◌, ◌⊎◌, refl, arith, Option-cases, Bool-cases, inl,
  inr,
}
use mt_jobs.Base.Table.{find, save, find-key, find-save, find-pk}
use mt_jobs.Models.Outbox.{JobOutbox, is_pending}
use mt_jobs.Domain.Exceptions.{Exception, ok, err}
use mt_jobs.Store.Db.{outbox_pk}
use mt_jobs.Services.Outbox.{World, Broker, publish_event, send_event, published_event}

abbrev pub sent_event : ℕ → JobOutbox → World → World
sent_event now e w = record w {
  db = record w.db { outbox = save outbox_pk (published_event now e) w.db.outbox };
  queue = w.queue ++ e.job ∷ [];
}

-- The ends of a call: nothing happens, an exception goes out and nothing is written, or the event is
-- sent and marked.
pub publish_event-cases :
    (broker : Broker) (now i : ℕ) (w : World)
    → ((x : Exception) × (publish_event broker now i w ≡ (err x, w)))
      ⊎ ((e : JobOutbox) × (find outbox_pk i w.db.outbox ≡ some e)
          × (is_pending e.status ≡ false)
          × (publish_event broker now i w ≡ (ok tt, w)))
      ⊎ ((e : JobOutbox) × (find outbox_pk i w.db.outbox ≡ some e)
          × (is_pending e.status ≡ true)
          × (broker e.job ≡ none)
          × (publish_event broker now i w ≡ (ok tt, sent_event now e w)))
unfolding publish_event send_event
publish_event-cases broker now i w = elim (Option-cases (find outbox_pk i w.db.outbox)) [
  | inl e ↦ inl (Exception.does_not_exist "JobOutbox", rw e refl)
  | inr (event, e) ↦ elim (Bool-cases (is_pending event.status)) [
    | inr done ↦ inr (inl (event, e, done, rw (e, done) refl))
    | inl waits ↦ elim (Option-cases (broker event.job)) [
      | inr (x, down) ↦ inl (x, rw (e, waits, down) refl)
      | inl up ↦ inr (inr (event, e, waits, up, rw (e, waits, up) refl))
    ]
  ]
]

-- A `publish_event` that raises leaves the database and the queue as they were: `publish_attempts`
-- and `last_error` are not written either.
pub publish_event-fails :
    (broker : Broker) (now i : ℕ) (w : World) (x : Exception)
    → (publish_event broker now i w).0 ≡ err x
    → (publish_event broker now i w).1 ≡ w
publish_event-fails broker now i w x = elim (publish_event-cases broker now i w) [
  | inl (y, run) ↦ rw run (λ h. refl)
  | inr (inl (e, _, _, run)) ↦ rw run (λ h. refl)
  | inr (inr (e, _, _, _, run)) ↦ rw run (λ h. cc h)
]

marked :
    (now i : ℕ) (e : JobOutbox) (w : World)
    → find outbox_pk i w.db.outbox ≡ some e
    → find outbox_pk i (sent_event now e w).db.outbox ≡ some (published_event now e)
marked now i e w h = ground (
  arith,
  find-pk outbox_pk i w.db.outbox h,
  find-save outbox_pk i (published_event now e) e w.db.outbox
      (find-key outbox_pk i e.id w.db.outbox h refl),
)

publish_event-idle :
    (broker : Broker) (now i : ℕ) (w : World) (e : JobOutbox)
    → find outbox_pk i w.db.outbox ≡ some e
    → is_pending e.status ≡ false
    → publish_event broker now i w ≡ (ok tt, w)
unfolding publish_event
publish_event-idle broker now i w e h p = rw (h, p) refl

-- After a `publish_event` that raised nothing, a further call for the same event returns at once:
-- it sends no message and changes nothing, whatever the broker would answer.
pub publish_event-once :
    (broker : Broker) (now i : ℕ) (w : World)
    → (publish_event broker now i w).0 ≡ ok tt
    → (again : Broker) (later : ℕ)
    → let v = (publish_event broker now i w).1 in publish_event again later i v ≡ (ok tt, v)
publish_event-once broker now i w = elim (publish_event-cases broker now i w) [
  | inl (y, run) ↦ rw run (λ h. cc h)
  | inr (inl (e, f, done, run)) ↦
      rw run (λ h again later. publish_event-idle again later i w e f done)
  | inr (inr (e, f, _, _, run)) ↦ rw run (λ h again later.
      publish_event-idle again later i (sent_event now e w) (published_event now e)
        (marked now i e w f) refl)
]
