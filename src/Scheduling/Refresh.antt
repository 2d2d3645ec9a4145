-- ===== src/Scheduling/Refresh.antt =====
-- What `refresh_scheduler_state` (jobs/services/scheduler_state.py) writes in the cache of a tenant.
use mt_jobs.Base.{
  ℕ, Bool, true, false, Option, some, none, List, [], ◌∷◌, ◌++◌, ◌≡◌, ◌≤◌, refl, subst, filter, any,
  head?, All, arith, Bool-cases, Option-cases, inl, inr, eq→==,
}
use mt_jobs.Base.Table.{find-pk, find-key, find-save, find-append, All-map}
use mt_jobs.Base.Sort.{order_by, IsSorted, order_by-IsSorted}
use mt_jobs.Base.Queries.{All-selected, All-ordered}
use mt_jobs.Models.Job.{Job}
use mt_jobs.Models.SchedulerState.{TenantSchedulerState}
use mt_jobs.Store.Db.{Db, find_state, state_pk}
use mt_jobs.Services.SchedulerState.{
  refresh_scheduler_state, refreshed, new_state, before, available_before, is_ready, is_waiting,
  is_some, map?, first_ready, earliest_waiting,
}
use mt_jobs.Capacity.Refresh.{refresh-eq, refresh_rows}
use mt_jobs.Scheduling.Order.{before_total, before_trans}

filter-nil {ℓ} : {A : Type ℓ} (p : A → Bool) (xs : List A) → any p xs ≡ false → filter p xs ≡ []
unfolding any filter
filter-nil p [] h = refl
filter-nil p (x ∷ xs) h = ground (arith, filter-nil p xs)

any-false {ℓ} :
    {A : Type ℓ} (p : A → Bool) (xs : List A) → All (λ x. p x ≡ true → ⊥) xs → any p xs ≡ false
unfolding any
any-false p [] a = refl
any-false p (x ∷ xs) a = elim (Bool-cases (p x)) [
  | inl e ↦ absurd (a.0 e)
  | inr e ↦ rw e (any-false p xs a.1)
]

module _ {A : Type 0} (before : A → A → Bool)
    (total : (x y : A) → before x y ≡ false → before y x ≡ true)
    (trans : (x y z : A) → before x y ≡ true → before y z ≡ true → before x z ≡ true) where
  pub head-none :
      (p : A → Bool) (xs : List A) → head? (order_by before (filter p xs)) ≡ none → any p xs ≡ false
  unfolding head?
  head-none p xs h = any-false p xs (
      All-selected (λ x. ⊥) p xs
        (All-ordered (λ x. ⊥) before (filter p xs) (empty (order_by before (filter p xs)) h)))
    where
      empty : (ys : List A) → head? ys ≡ none → All (λ y. ⊥) ys
      empty [] e = tt
      empty (y ∷ ys) e = cc

  pub head-least :
      (p : A → Bool) (xs : List A) (x : A)
      → head? (order_by before (filter p xs)) ≡ some x
      → All (λ y. p y ≡ true → before x y ≡ true) xs
  unfolding head?
  head-least p xs x h =
      All-selected (λ y. before x y ≡ true) p xs
        (All-ordered (λ y. before x y ≡ true) before (filter p xs)
          (least (order_by before (filter p xs))
            (order_by-IsSorted before total trans (filter p xs)) h))
    where
      reflexive : (y : A) → before y y ≡ true
      reflexive y = elim (Bool-cases (before y y)) [ inl e ↦ e | inr e ↦ total y y e ]

      least :
          (ys : List A) → IsSorted before ys → head? ys ≡ some x → All (λ y. before x y ≡ true) ys
      least [] so e = tt
      least (y ∷ ys) so e =
          let q : y ≡ x = cc e in
          subst (λ z. All (λ y'. before z y' ≡ true) (y ∷ ys)) q (reflexive y, so.0)

  head-some :
      (p : A → Bool) (xs : List A) → is_some (head? (order_by before (filter p xs))) ≡ any p xs
  unfolding head? order_by
  head-some p xs = elim (Option-cases (head? (order_by before (filter p xs)))) [
    | inl e ↦ rw (e, head-none p xs e) refl
    | inr (x, e) ↦ elim (Bool-cases (any p xs)) [
      | inl h ↦ rw (e, h) refl
      | inr h ↦ let e' = rw (filter-nil p xs h) at e in cc e'
    ]
  ]

available_total : (x y : Job) → available_before x y ≡ false → available_before y x ≡ true
available_total x y h = ground arith

available_trans :
    (x y z : Job)
    → available_before x y ≡ true
    → available_before y z ≡ true
    → available_before x z ≡ true
available_trans x y z h k = ground arith

-- The cache tells what the jobs of a tenant are.
pub record IsSummary (now t : ℕ) (jobs : List Job) (s : TenantSchedulerState) : Type 0 where
  pub ready : s.has_ready_work ≡ any (is_ready now t) jobs
  pub no_priority : s.highest_ready_priority ≡ none → any (is_ready now t) jobs ≡ false
  pub priority :
      (p : ℕ)
      → s.highest_ready_priority ≡ some p
      → All (λ j. is_ready now t j ≡ true → p ≤ j.priority) jobs
  pub no_next : s.next_ready_at ≡ none → any (is_waiting t) jobs ≡ false
  pub next :
      (n : ℕ)
      → s.next_ready_at ≡ some n
      → All (λ j. is_waiting t j ≡ true → n ≤ j.available_at) jobs

map?-none : {A B : Type 0} (f : A → B) (o : Option A) → map? f o ≡ none → o ≡ none
map?-none f none e = refl
map?-none f (some a) e = cc e

map?-some :
    {A B : Type 0} (f : A → B) (o : Option A) (b : B)
    → map? f o ≡ some b
    → (a : A) × (o ≡ some a) × (f a ≡ b)
map?-some f none b e = cc e
map?-some f (some a) b e = (a, refl, cc e)

refreshed-IsSummary :
    (now t : ℕ) (jobs : List Job) (s : TenantSchedulerState)
    → s.tenant ≡ t
    → IsSummary now t jobs (refreshed now jobs s)
unfolding first_ready earliest_waiting
refreshed-IsSummary now t jobs s e = rw (← e) (record {
  ready = head-some before before_total before_trans (is_ready now s.tenant) jobs;
  no_priority = λ h.
      head-none before before_total before_trans (is_ready now s.tenant) jobs (map?-none _ _ h);
  priority = λ p h.
      let (j, f, q) = map?-some _ _ p h in
      All-map _ (λ k. is_ready now s.tenant k ≡ true → p ≤ k.priority) jobs
        (λ k least r. let l = least r in ground (arith, q))
        (head-least before before_total before_trans (is_ready now s.tenant) jobs j f);
  no_next = λ h.
      head-none available_before available_total available_trans (is_waiting s.tenant) jobs
        (map?-none _ _ h);
  next = λ n h.
      let (j, f, q) = map?-some _ _ n h in
      All-map _ (λ k. is_waiting s.tenant k ≡ true → n ≤ k.available_at) jobs
        (λ k least r. let l = least r in ground (arith, q))
        (head-least available_before available_total available_trans (is_waiting s.tenant) jobs j
          f);
})

-- After `refresh_scheduler_state` the tenant has a scheduler state that tells whether a job of it
-- is ready, a priority that no ready job exceeds in urgency, and an instant before which no
-- waiting job is available; the latter two are missing only where there is no such job.
pub refresh-IsSummary :
    (now t : ℕ) (d : Db)
    → (s : TenantSchedulerState) × (find_state t (refresh_scheduler_state now t d).1 ≡ some s)
      × IsSummary now t d.jobs s
unfolding refresh_rows
refresh-IsSummary now t d = rw (refresh-eq now t d) (elim (Option-cases (find_state t d)) [
  | inl e ↦
      let here = find-append state_pk t (new_state now t) d.scheduler_states e in
      let at : find_state t
            (record d { scheduler_states = d.scheduler_states ++ new_state now t ∷ [] })
          ≡ some (new_state now t) =
        rw (eq→== t t refl) at here in
      (
        refreshed now d.jobs (new_state now t),
        rw e (
            ground (
              arith,
              eq→== t t refl,
              at,
              find-save state_pk t (refreshed now d.jobs (new_state now t)) (new_state now t)
                  (d.scheduler_states ++ new_state now t ∷ []),
            )),
        refreshed-IsSummary now t d.jobs (new_state now t) refl,
      )
  | inr (s, e) ↦
      let at = find-key state_pk t s.tenant d.scheduler_states e refl in
      let own = find-pk state_pk t d.scheduler_states e in
      (
        refreshed now d.jobs s,
        rw e (
            ground (
              arith,
              eq→== s.tenant t own,
              find-save state_pk t (refreshed now d.jobs s) s d.scheduler_states at,
            )),
        refreshed-IsSummary now t d.jobs s own,
      )
])
