-- ===== src/Scheduling/Wake.antt =====
-- The scheduler state of a tenant that has ready work (jobs/services/scheduler_state.py).
use mt_jobs.Base.{
  ℕ, Bool, true, false, some, List, [], ◌∷◌, ◌++◌, ◌≡◌, ◌==◌, refl, ◌∙◌, any, arith, Bool-cases,
  Option-cases, inl, inr,
}
use mt_jobs.Base.Table.{find, find-pk, find-append}
use mt_jobs.Base.Keys.{find-save_other}
use mt_jobs.Models.SchedulerState.{TenantSchedulerState}
use mt_jobs.Store.Db.{Db, find_state, state_pk}
use mt_jobs.Services.SchedulerState.{refreshed, new_state}
use mt_jobs.Capacity.Refresh.{refresh_db, refresh_rows}

pub any-find {ℓ} :
    {A : Type ℓ} (pk : A → ℕ) (p : A → Bool) (i : ℕ) (xs : List A) (x : A)
    → find pk i xs ≡ some x
    → p x ≡ true
    → any p xs ≡ true
unfolding any find
any-find pk p i [] x e h = cc e
any-find pk p i (y ∷ xs) x e h = elim (Bool-cases (pk y == i)) [
  | inl hit ↦ let q : y ≡ x = ground (arith, hit, e) in rw (q, h) refl
  | inr miss ↦ ground (arith, any-find pk p i xs x (ground (arith, miss, e)) h)
]

-- The scheduler state of a tenant tells that it has ready work.
abbrev pub IsWoken : ℕ → Db → Type 0
IsWoken t d = (s : TenantSchedulerState) × (find_state t d ≡ some s) × (s.has_ready_work ≡ true)

-- A refresh for another tenant leaves the row alone.
pub refresh-other :
    (now u t : ℕ) (d : Db) → (u == t) ≡ false → find_state t (refresh_db now u d) ≡ find_state t d
unfolding refresh_rows
refresh-other now u t d other = elim (Option-cases (find_state u d)) [
  | inl e ↦ rw e (
      find-save_other state_pk t (refreshed now d.jobs (new_state now u))
        (d.scheduler_states ++ new_state now u ∷ []) other
      ∙ find-append state_pk t (new_state now u) d.scheduler_states e
      ∙ rw other refl)
  | inr (s, e) ↦
      let own = find-pk state_pk u d.scheduler_states e in
      rw e (find-save_other state_pk t (refreshed now d.jobs s) d.scheduler_states (rw own other))
]
