-- ===== src/Workers/Bounds.antt =====
-- Bounds of the attempts that no service but `claim_job` (jobs/services/execution.py) breaks.
use mt_jobs.Base.{
  ℕ, Bool, some, List, [], ◌∷◌, ◌≤◌, ◌⊎◌, sym, subst, any, filter, head?, update, All, arith,
  Option-cases, Bool-cases, inl, inr,
}
use mt_jobs.Models.Job.{Job}
use mt_jobs.Models.Attempt.{JobAttempt}
use mt_jobs.Models.SchedulerState.{TenantSchedulerState}
use mt_jobs.Store.Exec.{pure, roll_back, ◌>>=◌}
use mt_jobs.Store.Db.{Db}
use mt_jobs.Services.Dispatcher.{reserve_job}
use mt_jobs.Services.Heartbeat.{heartbeat, renew_lease, renew_attempt, is_running_attempt}
use mt_jobs.Services.Outbox.{World, Broker, publish_event}
use mt_jobs.Capacity.Dispatch.{is_reserved}
use mt_jobs.System.Steps.{Step, IsClaim}
use mt_jobs.System.Frame.{Frame, IsWithin}
use mt_jobs.System.Frame.Dispatch.{IsBefore, dispatch_next-keeps}
use mt_jobs.System.Frame.Others.{Step-keeps}
use mt_jobs.Workers.Outbox.{publish_event-cases}

-- What no step but a claim breaks.
abbrev pub Bounded : ℕ → (ℕ → ℕ) → Db → Type 0
Bounded n cap e = (n ≤ e.next_uuid) × All (IsWithin n cap) e.attempts

attempt_frame : (n : ℕ) (cap : ℕ → ℕ) → Frame (Bounded n cap)
attempt_frame n cap = record {
  other = λ d e _ _ _ k (u, a). (omega (arith, k.uuids, u), k.attempts n cap a);
  release = λ i d e _ _ _ k (u, a). (omega (arith, k.uuids, u), k.attempts n cap a);
}

renew-IsWithin :
    (n : ℕ) (cap : ℕ → ℕ) (p : JobAttempt → Bool) (now expires_at : ℕ) (xs : List JobAttempt)
    → All (IsWithin n cap) xs
    → All (IsWithin n cap) (update p (renew_attempt now expires_at) xs)
unfolding update
renew-IsWithin n cap p now expires_at [] a = tt
renew-IsWithin n cap p now expires_at (x ∷ xs) (h, a) =
    let ih = renew-IsWithin n cap p now expires_at xs a in
    elim (Bool-cases (p x)) [ inl e ↦ rw e (h, ih) | inr e ↦ rw e (h, ih) ]

heartbeat-Bounded :
    (n : ℕ) (cap : ℕ → ℕ) (now i : ℕ) (d : Db)
    → Bounded n cap d
    → Bounded n cap (heartbeat now i d).1
unfolding heartbeat renew_lease
heartbeat-Bounded n cap now i d (u, h) =
    elim (Option-cases (head? (filter (is_running_attempt i) d.attempts))) [
      | inl e ↦ rw e (u, h)
      | inr (a, e) ↦ rw e (u, renew-IsWithin n cap _ now _ d.attempts h)
    ]

publish_event-Bounded :
    (n : ℕ) (cap : ℕ → ℕ) (broker : Broker) (now i : ℕ) (w : World)
    → Bounded n cap w.db
    → Bounded n cap (publish_event broker now i w).1.db
publish_event-Bounded n cap broker now i w h = elim (publish_event-cases broker now i w) [
  | inl (x, run) ↦ rw run h
  | inr (inl (e, _, _, run)) ↦ rw run h
  | inr (inr (e, _, _, _, run)) ↦ rw run h
]

reserve-Bounded :
    (n : ℕ) (cap : ℕ → ℕ) (now : ℕ) (d : Db)
    → Bounded n cap d
    → (s : TenantSchedulerState) (job : Job) (e : Db) → Bounded n cap e
    → Bounded n cap (roll_back d ((reserve_job now job s >>= λ j. pure (some j)) e)).1
unfolding reserve_job
reserve-Bounded n cap now d h s job e (u, a) =
    elim (Bool-cases (any (is_reserved job.id) e.reservations)) [
      | inl clash ↦ rw clash h
      | inr free ↦ rw free (omega (arith, u), a)
    ]

before-Bounded :
    (n : ℕ) (cap : ℕ → ℕ) (now : ℕ) (d : Db) (job : Job) (e : Db)
    → IsBefore now d job e
    → Bounded n cap d
    → Bounded n cap e
before-Bounded n cap now d job e (inl p) h = rw p h
before-Bounded n cap now d job e (inr (k, _, p)) h = rw p (omega (arith, h.0), h.1)

pub Step-Bounded :
    (n : ℕ) (cap : ℕ → ℕ) {w v : World}
    → Step w v
    → Bounded n cap w.db
    → Bounded n cap v.db ⊎ IsClaim w v
Step-Bounded n cap {w} s h =
    elim (Step-keeps (Bounded n cap) (attempt_frame n cap) (heartbeat-Bounded n cap) s h) [
      | inl (k, _) ↦ inl k
      | inr (inr (inr c)) ↦ inr c
      | inr (inr (inl (to_text, locked, now, t, p))) ↦ inl (
          subst (λ (u : World). Bounded n cap u.db) (sym p)
            (dispatch_next-keeps (Bounded n cap) now w.db h
              (λ s job e b.
                reserve-Bounded n cap now w.db h s job e (before-Bounded n cap now w.db job e b h))
              to_text locked t))
      | inr (inl (broker, now, i, p)) ↦ inl (
          subst (λ (u : World). Bounded n cap u.db) (sym p)
            (publish_event-Bounded n cap broker now i w h))
    ]
