-- ===== src/Scheduling/Leases.antt =====
-- Heartbeats (jobs/services/heartbeat.py) and the reaper (jobs/services/reconciliation.py).
use mt_jobs.Base.{
  ℕ, Bool, true, some, List, [], ◌∷◌, ◌≡◌, ◌≢◌, ◌≤◌, ◌+◌, ◌==◌, filter, head?, update, map, All,
  arith, Bool-cases, Option-cases, inl, inr,
}
use mt_jobs.Base.Table.{All-filter, All-take, All-map}
use mt_jobs.Models.Attempt.{JobAttempt}
use mt_jobs.Domain.Exceptions.{ok}
use mt_jobs.Store.Db.{Db}
use mt_jobs.Services.Overlap.{seconds}
use mt_jobs.Services.Heartbeat.{
  heartbeat, renew_lease, renew_attempt, is_running_attempt, lease_seconds,
}
use mt_jobs.Services.Reconciliation.{expired_attempts, is_abandoned}

first-holds {ℓ} :
    {A : Type ℓ} (p : A → Bool) (xs : List A) {x : A} → head? (filter p xs) ≡ some x → p x ≡ true
unfolding filter head?
first-holds p [] h = cc h
first-holds p (y ∷ ys) {x} h = ground (arith, first-holds p ys {x = x})

All-images {ℓ ℓ' κ} :
    {A : Type ℓ} {B : Type ℓ'} (P : B → Type κ) (f : A → B) (xs : List A)
    → All (λ x. P (f x)) xs
    → All P (map f xs)
All-images P f [] a = tt
All-images P f (x ∷ xs) a = (a.0, All-images P f xs a.1)

module _ (now later i k : ℕ) (same : k ≡ i) (soon : later ≤ now + seconds lease_seconds) where
  abbrev IsSpared : JobAttempt → Type 0
  IsSpared a = is_abandoned later a ≡ true → a.id ≢ i

  renewed-IsSpared :
      (attempts : List JobAttempt)
      → All IsSpared (
          update
            (λ (a : JobAttempt). a.id == k)
            (renew_attempt now (now + seconds lease_seconds))
            attempts)
  unfolding update
  renewed-IsSpared [] = tt
  renewed-IsSpared (a ∷ rest) = elim (Bool-cases (a.id == k)) [
    | inl hit ↦ rw hit ((λ late. ground (arith, soon)), renewed-IsSpared rest)
    | inr other ↦ rw other ((λ late e. ground (arith, other, same, e)), renewed-IsSpared rest)
  ]

-- After a heartbeat that returned True, `reconcile_expired` does not pick the attempt up to and at
-- the end of the lease of 300 seconds, if nothing else happens in between.
pub heartbeat-spares :
    (now later i limit : ℕ) (d : Db)
    → (heartbeat now i d).0 ≡ ok true
    → later ≤ now + seconds lease_seconds
    → All (λ k. k ≢ i) (expired_attempts later limit (heartbeat now i d).1)
unfolding heartbeat renew_lease expired_attempts
heartbeat-spares now later i limit d =
    elim (Option-cases (head? (filter (is_running_attempt i) d.attempts))) [
      | inl e ↦ rw e (λ h. cc h)
      | inr (a, e) ↦ rw e (λ h soon.
          let key : a.id ≡ i =
            let p = first-holds (is_running_attempt i) d.attempts e in ground (arith, p) in
          let rows = renewed-IsSpared now later i a.id key soon d.attempts in
          All-take (λ k. k ≢ i) limit _
            (All-images (λ k. k ≢ i) _ _
              (All-map _ (λ (x : JobAttempt). x.id ≢ i) _ (λ x (p, q). p q)
                (All-filter (IsSpared now later i a.id key soon) (is_abandoned later) _ rows))))
    ]
