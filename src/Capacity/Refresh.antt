-- ===== src/Capacity/Refresh.antt =====
-- `refresh_scheduler_state` (jobs/services/scheduler_state.py) and `heartbeat`
-- (jobs/services/heartbeat.py) and the slots.
use mt_jobs.Base.{
  ℕ, Bool, Option, none, some, List, [], ◌∷◌, ◌++◌, ◌≡◌, refl, count, update, filter, head?, arith,
  Option-cases, inl, inr, eq→==,
}
use mt_jobs.Base.Table.{find, save, find-key, find-save, find-append}
use mt_jobs.Models.Job.{Job}
use mt_jobs.Models.SchedulerState.{TenantSchedulerState}
use mt_jobs.Domain.Exceptions.{ok}
use mt_jobs.Store.Db.{Db, find_state, state_pk}
use mt_jobs.Services.SchedulerState.{refresh_scheduler_state, new_state, refreshed}
use mt_jobs.Services.Heartbeat.{heartbeat, renew_lease, is_running_attempt}
use mt_jobs.Capacity.Balance.{IsBalanced, active_of, runs, reserves, of_tenant}
use mt_jobs.Capacity.Moves.{same-IsBalanced}

abbrev rows_from :
    ℕ
    → ℕ
    → List Job
    → List TenantSchedulerState
    → Option TenantSchedulerState
    → List TenantSchedulerState
rows_from now t jobs states none =
    save state_pk (refreshed now jobs (new_state now t)) (states ++ new_state now t ∷ [])
rows_from now t jobs states (some s) = save state_pk (refreshed now jobs s) states

-- The counters after a refresh.
unfoldable pub refresh_rows :
    ℕ → ℕ → List Job → List TenantSchedulerState → List TenantSchedulerState
refresh_rows now t jobs states = rows_from now t jobs states (find state_pk t states)

abbrev pub refresh_db : ℕ → ℕ → Db → Db
refresh_db now t d = record d { scheduler_states = refresh_rows now t d.jobs d.scheduler_states }

pub refresh-eq :
    (now t : ℕ) (d : Db) → refresh_scheduler_state now t d ≡ (ok tt, refresh_db now t d)
unfolding refresh_scheduler_state refresh_rows
refresh-eq now t d = elim (Option-cases (find_state t d)) [
  | inl e ↦ rw (e, refresh_scheduler_state)
  | inr (s, e) ↦ rw (e, refresh_scheduler_state)
]

active_of-refresh_rows :
    (now t k : ℕ) (jobs : List Job) (states : List TenantSchedulerState)
    → active_of (find state_pk k (refresh_rows now t jobs states))
      ≡ active_of (find state_pk k states)
unfolding refresh_rows
active_of-refresh_rows now t k jobs states = elim (Option-cases (find state_pk t states)) [
  | inl e ↦
      let new = find-append state_pk k (new_state now t) states e in
      let here = find-append state_pk t (new_state now t) states e in
      rw e (
        ground (
          arith,
          new,
          here,
          eq→== t t refl,
          find-save state_pk k (refreshed now jobs (new_state now t)) (new_state now t)
              (states ++ new_state now t ∷ []),
        ))
  | inr (s, e) ↦
      let at = find-key state_pk t s.tenant states e refl in
      rw e (ground (arith, at, find-save state_pk k (refreshed now jobs s) s states at))
]

pub refresh-IsBalanced : (now t : ℕ) (d : Db) → IsBalanced d → IsBalanced (refresh_db now t d)
refresh-IsBalanced now t d b =
    same-IsBalanced d (refresh_db now t d) refl refl (λ i k. refl) (λ k. refl) (λ i. refl)
      (λ k. active_of-refresh_rows now t k d.jobs d.scheduler_states) b

count-update {ℓ} :
    {A : Type ℓ} (p q : A → Bool) (f : A → A) (xs : List A)
    → ((x : A) → p (f x) ≡ p x)
    → count p (update q f xs) ≡ count p xs
unfolding count update
count-update p q f [] h = refl
count-update p q f (x ∷ xs) h = ground (arith, h x, count-update p q f xs h)

-- A heartbeat moves only instants.
pub heartbeat-IsBalanced : (now i : ℕ) (d : Db) → IsBalanced d → IsBalanced (heartbeat now i d).1
unfolding heartbeat renew_lease
heartbeat-IsBalanced now i d b =
    elim (Option-cases (head? (filter (is_running_attempt i) d.attempts))) [
      | inl e ↦ rw e b
      | inr (a, e) ↦ rw e (
          same-IsBalanced d _ refl refl
            (λ k t. count-update (reserves k t) _ _ d.reservations (λ r. refl))
            (λ t. count-update (of_tenant t) _ _ d.reservations (λ r. refl))
            (λ k. count-update (runs k) _ _ d.attempts (λ x. refl)) (λ t. refl) b)
    ]
