-- ===== src/Scheduling/Retries.antt =====
-- A run of `promote_ready_retries` (jobs/services/retry.py) promotes what is due.
use mt_jobs.Base.{
  ℕ, Bool, true, false, not, some, List, [], ◌∷◌, ◌≡◌, ◌≢◌, ◌≤◌, ◌==◌, ◌&&◌, ◌⊎◌, refl, sym, ◌∙◌,
  length, filter, any, count, All, arith, Bool-cases, inl, inr, eq→==, ==→eq,
}
use mt_jobs.Base.Table.{
  save, find-save, find-pk, find-key, IsKeyed, IsKeyed-found, All-filter, All-find, All-map,
  All-take,
}
use mt_jobs.Base.Keys.{find-save_other}
use mt_jobs.Base.Sort.{All-order_by, order_by}
use mt_jobs.Base.Queries.{All-selected, All-ordered, length-order_by, length-filter, take_all}
use mt_jobs.Models.Job.{Job}
use mt_jobs.Domain.Exceptions.{ok}
use mt_jobs.Store.Exec.{Exec, pure, >>-ok, ◌>>◌}
use mt_jobs.Store.Db.{Db, find_job, job_pk}
use mt_jobs.Services.SchedulerState.{available_before, is_ready}
use mt_jobs.Services.Retry.{
  promote_ready_retries, promote_all, refresh_all, tenant_ids, elapsed, is_elapsed, promoted_job,
}
use mt_jobs.Capacity.Refresh.{refresh-eq, refresh_db}
use mt_jobs.Scheduling.Refresh.{refresh-IsSummary}
use mt_jobs.Scheduling.Wake.{any-find, IsWoken, refresh-other}

module _ (now i : ℕ) (j : Job) where
  -- The job stands as promoted.
  abbrev IsPromoted : Db → Type 0
  IsPromoted d = find_job i d ≡ some (promoted_job now j)

  -- A row that, if it is of the job, is the job.
  abbrev IsOwn : Job → Type 0
  IsOwn x = x.id ≡ i → x ≡ j

  promote_all-ok : (js : List Job) (d : Db) → (promote_all now js d).0 ≡ ok tt
  unfolding promote_all
  promote_all-ok [] d = refl
  promote_all-ok (x ∷ js) d =
      promote_all-ok js (record d { jobs = save job_pk (promoted_job now x) d.jobs })

  save-IsPromoted :
      (x y : Job) (d : Db)
      → (x.id == i) ≡ true
      → x ≡ j
      → find_job i d ≡ some y
      → IsPromoted (record d { jobs = save job_pk (promoted_job now x) d.jobs })
  save-IsPromoted x y d hit same e =
      let own : x.id ≡ y.id = ==→eq x.id i hit ∙ sym (find-pk job_pk i d.jobs e) in
      let law =
        find-save job_pk i (promoted_job now x) y d.jobs (find-key job_pk i x.id d.jobs e own) in
      ground (arith, law, hit, same)

  promote_all-kept :
      (js : List Job) (d : Db) → All IsOwn js → IsPromoted d → IsPromoted (promote_all now js d).1
  unfolding promote_all
  promote_all-kept [] d a h = h
  promote_all-kept (x ∷ js) d (own, a) h = promote_all-kept js _ a (elim (Bool-cases (x.id == i)) [
    | inl hit ↦ save-IsPromoted x (promoted_job now j) d hit (own (==→eq x.id i hit)) h
    | inr miss ↦ find-save_other job_pk i (promoted_job now x) d.jobs miss ∙ h
  ])

  promote_all-IsPromoted :
      (js : List Job) (d : Db) (y : Job)
      → All IsOwn js
      → find_job i d ≡ some y
      → All (λ x. x.id ≢ i) js ⊎ IsPromoted (promote_all now js d).1
  unfolding promote_all
  promote_all-IsPromoted [] d y a e = inl tt
  promote_all-IsPromoted (x ∷ js) d y (own, a) e = elim (Bool-cases (x.id == i)) [
    | inl hit ↦ inr (promote_all-kept js _ a (save-IsPromoted x y d hit (own (==→eq x.id i hit)) e))
    | inr miss ↦
        elim (promote_all-IsPromoted js _ y a
          (find-save_other job_pk i (promoted_job now x) d.jobs miss ∙ e)) [
            | inl none_of ↦ inl ((λ p. absurd (ground (arith, miss, p))), none_of)
            | inr h ↦ inr h
          ]
  ]

  -- The tenant of the job is among those to be refreshed.
  tenant_ids-own :
      (js : List Job)
      → All IsOwn js
      → All (λ x. x.id ≢ i) js ⊎ (any (λ t. t == j.tenant) (tenant_ids js) ≡ true)
  unfolding tenant_ids any
  tenant_ids-own [] a = inl tt
  tenant_ids-own (x ∷ js) (own, a) = elim (Bool-cases (any (λ t. t == x.tenant) (tenant_ids js))) [
    | inl known ↦ elim (Bool-cases (x.id == i)) [
      | inl hit ↦ inr (let same = own (==→eq x.id i hit) in rw known (rw (← same) known))
      | inr miss ↦ elim (tenant_ids-own js a) [
        | inl none_of ↦ inl ((λ p. absurd (ground (arith, miss, p))), none_of)
        | inr h ↦ inr (rw known h)
      ]
    ]
    | inr new ↦ elim (Bool-cases (x.id == i)) [
      | inl hit ↦ inr (
          let same = own (==→eq x.id i hit) in
          rw new (rw (← same) (ground (arith, eq→== x.tenant x.tenant refl))))
      | inr miss ↦ elim (tenant_ids-own js a) [
        | inl none_of ↦ inl ((λ p. absurd (ground (arith, miss, p))), none_of)
        | inr h ↦ inr (rw new (ground (arith, h)))
      ]
    ]
  ]

  module _ (due : is_elapsed now j ≡ true) where
    refresh-IsWoken : (d : Db) → IsPromoted d → IsWoken j.tenant (refresh_db now j.tenant d)
    refresh-IsWoken d h =
        let (s, e, sum) = refresh-IsSummary now j.tenant d in
        let works : any (is_ready now j.tenant) d.jobs ≡ true =
          any-find job_pk (is_ready now j.tenant) i d.jobs (promoted_job now j) h
            (ground (arith, due, eq→== j.tenant j.tenant refl)) in
        (s, rw refresh-eq at e, sum.ready ∙ works)

    refresh_all-IsWoken :
        (ts : List ℕ) (d : Db)
        → IsPromoted d
        → IsWoken j.tenant d ⊎ (any (λ t. t == j.tenant) ts ≡ true)
        → ((refresh_all now ts d).0 ≡ ok tt)
          × IsPromoted (refresh_all now ts d).1
          × IsWoken j.tenant (refresh_all now ts d).1
    unfolding refresh_all any
    refresh_all-IsWoken [] d h (inl w) = (refl, h, w)
    refresh_all-IsWoken [] d h (inr c) = cc c
    refresh_all-IsWoken (t ∷ ts) d h w = rw (refresh-eq now t d) (
        refresh_all-IsWoken ts (refresh_db now t d) h (elim (Bool-cases (t == j.tenant)) [
          | inl hit ↦ inl (rw (==→eq t j.tenant hit) (refresh-IsWoken d h))
          | inr miss ↦ later miss w
        ]))
      where
        later :
            (t == j.tenant) ≡ false
            → IsWoken j.tenant d ⊎ (any (λ u. u == j.tenant) (t ∷ ts) ≡ true)
            → IsWoken j.tenant (refresh_db now t d) ⊎ (any (λ u. u == j.tenant) ts ≡ true)
        later miss (inl (s, e, r)) = inl (s, refresh-other now t j.tenant d miss ∙ e, r)
        later miss (inr c) = inr (ground (arith, miss, c))

    module _ (locked : ℕ → Bool) (limit : ℕ) (d : Db) (keyed : IsKeyed job_pk d.jobs)
        (free : locked j.id ≡ false) (here : find_job i d ≡ some j) where
      -- The jobs that the query selects.
      abbrev selects : Job → Bool
      selects x = is_elapsed now x && not (locked x.id)

      elapsed-IsOwn : All IsOwn (elapsed locked now limit d.jobs)
      unfolding elapsed
      elapsed-IsOwn = All-take IsOwn limit _ (
          All-order_by available_before IsOwn _ (
            All-map _ IsOwn _ (λ x (e, _) p. cc (e, here, p))
              (All-filter (λ x. find_job x.id d ≡ some x) selects d.jobs
                (IsKeyed-found job_pk d.jobs keyed))))

      module _ (few : count selects d.jobs ≤ limit) where
        some-due : All (λ x. x.id ≢ i) (elapsed locked now limit d.jobs) → ⊥
        unfolding elapsed
        some-due a =
            let rows = filter selects d.jobs in
            let whole = take_all limit (order_by available_before rows) (
              omega (
                arith,
                length-order_by available_before rows,
                length-filter selects d.jobs,
                few,
              )) in
            let all =
              All-selected (λ x. x.id ≢ i) selects d.jobs
                (All-ordered (λ x. x.id ≢ i) available_before rows (rw whole at a)) in
            All-find job_pk (λ x. selects x ≡ true → x.id ≢ i) i d.jobs all here
              (ground (arith, due, free)) (find-pk job_pk i d.jobs here)

        -- Where the ids of the jobs differ and at most `limit` jobs are due for a retry and not
        -- locked, `promote_ready_retries` raises nothing, returns how many it found, and each of
        -- those jobs then waits with `ready_since` the instant of the call, and the scheduler
        -- state of its tenant says that it has ready work.
        pub promote_ready_retries-Promotes :
            ((promote_ready_retries locked now limit d).0
              ≡ ok (length (elapsed locked now limit d.jobs)))
            × IsPromoted (promote_ready_retries locked now limit d).1
            × IsWoken j.tenant (promote_ready_retries locked now limit d).1
        unfolding promote_ready_retries
        promote_ready_retries-Promotes =
            let js = elapsed locked now limit d.jobs in
            let e = (promote_all now js d).1 in
            let finish : Exec Db ℕ = refresh_all now (tenant_ids js) >> pure (length js) in
            let promoted : IsPromoted e = elim (promote_all-IsPromoted js d j elapsed-IsOwn here) [
              | inl none_of ↦ absurd (some-due none_of)
              | inr h ↦ h
            ] in
            let (quiet, stands, woken) =
              refresh_all-IsWoken (tenant_ids js) e promoted
                (elim (tenant_ids-own js elapsed-IsOwn) [
                  | inl none_of ↦ absurd (some-due none_of)
                  | inr h ↦ inr h
                ]) in
            let run : (promote_all now js >> finish) d
                ≡ (ok (length js), (refresh_all now (tenant_ids js) e).1) =
              >>-ok (promote_all now js) finish d (promote_all-ok js d)
              ∙ >>-ok (refresh_all now (tenant_ids js)) (pure (length js)) e quiet in
            rw run (refl, stands, woken)
