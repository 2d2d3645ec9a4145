-- ===== src/Workers/Zombies.antt =====
-- `reconcile_expired` (jobs/services/reconciliation.py) as a whole: it ends what it is meant to end.
use mt_jobs.Base.{
  ℕ, true, some, List, [], ◌∷◌, ◌≡◌, ◌≤◌, ◌==◌, refl, sym, subst, All, map, filter, count,
  Option-cases, Bool-cases, inl, inr, arith, eq→==,
}
use mt_jobs.Base.Table.{find, All-take, All-map, All-filter, All-find, find-pk}
use mt_jobs.Base.Queries.{
  All-selected, length-filter, take_all, All-mapped, All-unmapped, length-mapped,
}
use mt_jobs.Models.Job.{Job}
use mt_jobs.Models.Attempt.{JobAttempt}
use mt_jobs.Models.Reservation.{JobExecutionReservation}
use mt_jobs.Domain.Exceptions.{Result, ok}
use mt_jobs.Store.Exec.{Exec, >>-ok, ◌>>◌}
use mt_jobs.Store.Db.{Db, find_job, find_attempt, attempt_pk}
use mt_jobs.Services.Reconciliation.{
  reconcile_attempt, recover_queued, reconcile_expired, reconcile_queued, for_each,
  expired_attempts, stuck_jobs, is_abandoned, is_stuck,
}
use mt_jobs.Capacity.Balance.{IsBalanced, works}
use mt_jobs.Capacity.Cancel.{recover_queued-IsBalanced}
use mt_jobs.Lifecycle.Rows.{Edits-SameIdentity}
use mt_jobs.Lifecycle.Services.Others.{recover_queued-History}
use mt_jobs.Workers.Reaper.{
  Known, HasEnded, Attends, Attends-same, reconcile_attempt-Sweeps, recover_queued-succeeds,
}

-- Each row's key is found.
All-known :
    (xs : List JobAttempt) → All (λ a. (b : JobAttempt) × (find attempt_pk a.id xs ≡ some b)) xs
unfolding find
All-known [] = tt
All-known (x ∷ xs) = (
  (x, rw (eq→== x.id x.id refl) refl),
  All-map _ _ xs (λ a (b, h). known-cons a.id x b h) (All-known xs),
)
  where
    known-cons :
        (k : ℕ) (y b : JobAttempt)
        → find attempt_pk k xs ≡ some b
        → (c : JobAttempt) × (find attempt_pk k (y ∷ xs) ≡ some c)
    known-cons k y b h = elim (Bool-cases (y.id == k)) [
      | inl e ↦ (y, rw e refl)
      | inr e ↦ (b, rw e h)
    ]

-- A pass over rows: it raises nothing, and ends no attempt's end.
record Passes (d : Db) (r : Result (Unit {0}) × Db) : Type 0 where
  quiet : r.0 ≡ ok tt
  balanced : IsBalanced r.1
  attends : Attends d r.1

Passes-then :
    (d : Db) (m k : Exec Db (Unit {0}))
    → Passes d (m d)
    → Passes (m d).1 (k (m d).1)
    → Passes d ((m >> k) d)
Passes-then d m k p q = rw (>>-ok m k d p.quiet) (record {
  quiet = q.quiet;
  balanced = q.balanced;
  attends = (λ i h. q.attends.0 i (p.attends.0 i h), λ i h. q.attends.1 i (p.attends.1 i h));
})

Passes-idle : (d : Db) → IsBalanced d → Passes d (ok tt, d)
Passes-idle d b = record { quiet = refl; balanced = b; attends = Attends-same d d refl }

reap_ids-Passes :
    (now : ℕ) (ids : List ℕ) (d : Db)
    → IsBalanced d
    → All (λ i. Known i d) ids
    → Passes d (for_each (reconcile_attempt now) ids d)
      × All (λ i. HasEnded i (for_each (reconcile_attempt now) ids d).1) ids
unfolding for_each
reap_ids-Passes now [] d b a = (Passes-idle d b, tt)
reap_ids-Passes now (i ∷ ids) d b (known, a) =
    let (quiet, bal, ended, attends) = reconcile_attempt-Sweeps now i d b known in
    let e = (reconcile_attempt now i d).1 in
    let here : Passes d (reconcile_attempt now i d) = record {
      quiet = quiet;
      balanced = bal;
      attends = attends;
    } in
    let (rest, all) =
      reap_ids-Passes now ids e bal (All-map (λ k. Known k d) (λ k. Known k e) ids attends.0 a) in
    let run = >>-ok (reconcile_attempt now i) (for_each (reconcile_attempt now) ids) d quiet in
    (
      Passes-then d (reconcile_attempt now i) (for_each (reconcile_attempt now) ids) here rest,
      subst (λ (x : Result (Unit {0}) × Db). All (λ k. HasEnded k x.1) (i ∷ ids)) (sym run)
          (rest.attends.1 i ended, all),
    )

abbrev KnownJob : Db → ℕ → Type 0
KnownJob d i = (j : Job) × (find_job i d ≡ some j)

recover_queued-KnownJob :
    (now i : ℕ) (d : Db) (k : ℕ) → KnownJob d k → KnownJob (recover_queued now i d).1 k
recover_queued-KnownJob now i d k (j, h) =
    let (x, f, _) = Edits-SameIdentity k j (recover_queued-History works true now d i) h in (x, f)

recover_ids-Passes :
    (now : ℕ) (ids : List ℕ) (d : Db)
    → IsBalanced d
    → All (KnownJob d) ids
    → Passes d (for_each (recover_queued now) ids d)
unfolding for_each
recover_ids-Passes now [] d b a = Passes-idle d b
recover_ids-Passes now (i ∷ ids) d b ((j, known), a) =
    let (quiet, rows) = recover_queued-succeeds now i d b j known in
    let e = (recover_queued now i d).1 in
    let bal = recover_queued-IsBalanced now i d b in
    Passes-then d (recover_queued now i) (for_each (recover_queued now) ids)
      (record { quiet = quiet; balanced = bal; attends = Attends-same d e rows })
      (recover_ids-Passes now ids e bal
        (All-map (KnownJob d) (KnownJob e) ids (recover_queued-KnownJob now i d) a))

stuck-KnownJob : (now limit : ℕ) (d : Db) → All (KnownJob d) (stuck_jobs now limit d)
unfolding stuck_jobs
stuck-KnownJob now limit d =
    All-mapped (KnownJob d) (λ (r : JobExecutionReservation). r.job) _
      (All-take _ limit _ (
        All-map _ (λ (r : JobExecutionReservation). KnownJob d r.job) _
          (λ r (_, h). queued-KnownJob r h)
          (All-filter (λ r. Unit {0}) (is_stuck now d) d.reservations (All-unit d.reservations))))
  where
    queued-KnownJob : (r : JobExecutionReservation) → is_stuck now d r ≡ true → KnownJob d r.job
    queued-KnownJob r h = elim (Option-cases (find_job r.job d)) [
      | inl e ↦ absurd (ground (arith, e, h))
      | inr known ↦ known
    ]

    All-unit : (rs : List JobExecutionReservation) → All (λ r. Unit {0}) rs
    All-unit [] = tt
    All-unit (r ∷ rs) = (tt, All-unit rs)

expired-Known : (now limit : ℕ) (d : Db) → All (λ i. Known i d) (expired_attempts now limit d)
unfolding expired_attempts
expired-Known now limit d =
    All-take (λ i. Known i d) limit _
      (All-mapped (λ i. Known i d) (λ (a : JobAttempt). a.id) _
        (All-map _ (λ (a : JobAttempt). Known a.id d) _ (λ a (h, _). h)
          (All-filter (λ (a : JobAttempt). Known a.id d) (is_abandoned now) d.attempts
            (All-known d.attempts))))

module _ (now limit : ℕ) (d : Db) (b : IsBalanced d) where
  abbrev reaped : Db
  reaped = (for_each (reconcile_attempt now) (expired_attempts now limit d) d).1

  reconcile_expired-Passes :
      Passes d (reconcile_expired now limit d)
      × All (λ i. HasEnded i (reconcile_expired now limit d).1) (expired_attempts now limit d)
  unfolding reconcile_expired reconcile_queued
  reconcile_expired-Passes =
      let reap = for_each (reconcile_attempt now) (expired_attempts now limit d) in
      let (p, ended) =
        reap_ids-Passes now (expired_attempts now limit d) d b (expired-Known now limit d) in
      let q : Passes reaped (reconcile_queued now limit reaped) =
        recover_ids-Passes now (stuck_jobs now limit reaped) reaped p.balanced
          (stuck-KnownJob now limit reaped) in
      (
        Passes-then d reap (reconcile_queued now limit) p q,
        rw (>>-ok reap (reconcile_queued now limit) d p.quiet)
            (All-map _ _ (expired_attempts now limit d) q.attends.1 ended),
      )

  -- Where the limit does not cut the query, what holds of its ids holds of all expired attempts.
  each_ends :
      (P : ℕ → Type 0)
      → count (is_abandoned now) d.attempts ≤ limit
      → All P (expired_attempts now limit d)
      → All (λ (a : JobAttempt). is_abandoned now a ≡ true → P a.id) d.attempts
  unfolding expired_attempts
  each_ends P few a =
      let rows = filter (is_abandoned now) d.attempts in
      let ids = map (λ (x : JobAttempt). x.id) rows in
      let whole = take_all limit ids (
        omega (
          arith,
          length-mapped (λ (x : JobAttempt). x.id) rows,
          length-filter (is_abandoned now) d.attempts,
          few,
        )) in
      All-selected (λ (x : JobAttempt). P x.id) (is_abandoned now) d.attempts
        (All-unmapped P (λ (x : JobAttempt). x.id) rows (rw whole at a))

  -- In a balanced state where at most `limit` running attempts have outlived their lease,
  -- `reconcile_expired` raises nothing, leaves the state balanced, and each of those attempts has
  -- ended.
  pub reconcile_expired-ends :
      (i : ℕ) (a : JobAttempt)
      → find_attempt i d ≡ some a
      → is_abandoned now a ≡ true
      → count (is_abandoned now) d.attempts ≤ limit
      → ((reconcile_expired now limit d).0 ≡ ok tt)
        × IsBalanced (reconcile_expired now limit d).1
        × HasEnded i (reconcile_expired now limit d).1
  reconcile_expired-ends i a e gone few =
      let after = (reconcile_expired now limit d).1 in
      let (p, ended) = reconcile_expired-Passes in
      let all = each_ends (λ k. HasEnded k after) few ended in
      (
        p.quiet,
        p.balanced,
        subst (λ k. HasEnded k after) (find-pk attempt_pk i d.attempts e)
            (All-find attempt_pk _ i d.attempts all e gone),
      )
