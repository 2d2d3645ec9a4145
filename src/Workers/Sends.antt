-- ===== src/Workers/Sends.antt =====
-- A pass of `publish_event` (jobs/services/outbox.py) over events, while the broker accepts all messages.
use mt_jobs.Base.{
  ℕ, true, false, none, some, List, [], ◌∷◌, ◌≡◌, ◌==◌, refl, sym, ap, subst, ◌∙◌, All, arith,
  Bool-cases, inl, inr, eq→==, ==→eq, if◌then◌else◌,
}
use mt_jobs.Base.Table.{find, find-save, find-key, find-pk, All-map}
use mt_jobs.Models.Outbox.{JobOutbox, is_pending}
use mt_jobs.Domain.Exceptions.{Result, ok}
use mt_jobs.Store.Exec.{Exec, >>-ok, ◌>>◌}
use mt_jobs.Store.Db.{outbox_pk}
use mt_jobs.Services.Outbox.{World, Broker, publish_event, send_event, published_event, publish_all}
use mt_jobs.Workers.Outbox.{sent_event}

-- An event of the table, and one that was sent.
abbrev pub HasEvent : ℕ → World → Type 0
HasEvent k w = (e : JobOutbox) × (find outbox_pk k w.db.outbox ≡ some e)

abbrev pub IsSent : ℕ → World → Type 0
IsSent k w =
    (e : JobOutbox) × (find outbox_pk k w.db.outbox ≡ some e) × (is_pending e.status ≡ false)

-- A pass over events: it raises nothing, no event goes, comes, waits again or changes its job.
pub record Sends (w : World) (r : Result (Unit {0}) × World) : Type 0 where
  pub quiet : r.0 ≡ ok tt
  pub jobs : r.1.db.jobs ≡ w.db.jobs
  pub known : (k : ℕ) → HasEvent k w → HasEvent k r.1
  pub stays : (k : ℕ) → IsSent k w → IsSent k r.1
  pub back :
      (k : ℕ) (e : JobOutbox)
      → find outbox_pk k r.1.db.outbox ≡ some e
      → (x : JobOutbox) × (find outbox_pk k w.db.outbox ≡ some x)
        × (x.job ≡ e.job)
        × (x.available_at ≡ e.available_at)

Sends-idle : (w : World) → Sends w (ok tt, w)
Sends-idle w = record {
  quiet = refl;
  jobs = refl;
  known = λ k h. h;
  stays = λ k h. h;
  back = λ k e h. (e, h, refl, refl);
}

Sends-then :
    (w : World) (m k : Exec World (Unit {0}))
    → Sends w (m w)
    → Sends (m w).1 (k (m w).1)
    → Sends w ((m >> k) w)
Sends-then w m k p q = rw (>>-ok m k w p.quiet) (record {
  quiet = q.quiet;
  jobs = q.jobs ∙ p.jobs;
  known = λ i h. q.known i (p.known i h);
  stays = λ i h. q.stays i (p.stays i h);
  back = λ i e h.
      let (x, f, own, at) = q.back i e h in
      let (y, g, own', at') = p.back i x f in (y, g, own' ∙ own, at' ∙ at);
})

module _ (now i : ℕ) (e : JobOutbox) (w : World)
    (stands : find outbox_pk i w.db.outbox ≡ some e) where
  sent_found :
      (k : ℕ)
      → find outbox_pk k (sent_event now e w).db.outbox
        ≡ (if e.id == k then some (published_event now e) else find outbox_pk k w.db.outbox)
  sent_found k =
      find-save outbox_pk k (published_event now e) e w.db.outbox
        (find-key outbox_pk i e.id w.db.outbox stands refl)

  own_event : (k : ℕ) → (e.id == k) ≡ true → find outbox_pk k w.db.outbox ≡ some e
  own_event k hit = find-key outbox_pk i k w.db.outbox stands (sym (==→eq e.id k hit))

  sent_event-Sends : Sends w (ok tt, sent_event now e w)
  sent_event-Sends = record {
    quiet = refl;
    jobs = refl;
    known = λ k (x, f). elim (Bool-cases (e.id == k)) [
      | inl hit ↦ (published_event now e, sent_found k ∙ rw hit refl)
      | inr miss ↦ (x, sent_found k ∙ rw miss f)
    ];
    stays = λ k (x, f, done). elim (Bool-cases (e.id == k)) [
      | inl hit ↦ (published_event now e, sent_found k ∙ rw hit refl, refl)
      | inr miss ↦ (x, sent_found k ∙ rw miss f, done)
    ];
    back = λ k x f. elim (Bool-cases (e.id == k)) [
      | inl hit ↦
          let p : published_event now e ≡ x = ground (arith, sent_found k, hit, f) in
          (
            e,
            own_event k hit,
            ap (λ (y : JobOutbox). y.job) p,
            ap (λ (y : JobOutbox). y.available_at) p,
          )
      | inr miss ↦ (x, ground (arith, sent_found k, miss, f), refl, refl)
    ];
  }

module _ (broker : Broker) (now : ℕ) (up : (i : ℕ) → broker i ≡ none) where
  publish_event-Sends :
      (i : ℕ) (w : World)
      → HasEvent i w
      → Sends w (publish_event broker now i w) × IsSent i (publish_event broker now i w).1
  unfolding publish_event send_event
  publish_event-Sends i w (e, stands) = elim (Bool-cases (is_pending e.status)) [
    | inr done ↦ rw (stands, done) (Sends-idle w, (e, stands, done))
    | inl waits ↦
        let key = eq→== e.id i (find-pk outbox_pk i w.db.outbox stands) in
        rw (stands, waits, up e.job)
          (
            sent_event-Sends now i e w stands,
            (published_event now e, sent_found now i e w stands i ∙ rw key refl, refl),
          )
  ]

  pub publish_all-Sends :
      (ids : List ℕ) (w : World)
      → All (λ i. HasEvent i w) ids
      → Sends w (publish_all broker now ids w)
        × All (λ i. IsSent i (publish_all broker now ids w).1) ids
  unfolding publish_all
  publish_all-Sends [] w a = (Sends-idle w, tt)
  publish_all-Sends (i ∷ ids) w (known, a) =
      let (p, sent) = publish_event-Sends i w known in
      let v = (publish_event broker now i w).1 in
      let (q, all) =
        publish_all-Sends ids v (All-map (λ k. HasEvent k w) (λ k. HasEvent k v) ids p.known a) in
      let run = >>-ok (publish_event broker now i) (publish_all broker now ids) w p.quiet in
      (
        Sends-then w (publish_event broker now i) (publish_all broker now ids) p q,
        subst (λ (x : Result (Unit {0}) × World). All (λ k. IsSent k x.1) (i ∷ ids)) (sym run)
            (q.stays i sent, all),
      )
