-- ===== src/Exclusion/Starts.antt =====
-- The locks of jobs with a slot, under the services that come before the end of an attempt
-- (jobs/services).
use mt_jobs.Base.{
  ℕ, String, Bool, true, some, List, [], ◌∷◌, ◌≡◌, refl, sym, any, filter, head?, length, leb,
  arith, eq_iff, eq→==, Option-cases, Bool-cases, inl, inr,
}
use mt_jobs.Base.Table.{find, save, find-key, any-append}
use mt_jobs.Models.Json.{Json}
use mt_jobs.Models.Job.{Job, JobStatus, is_status}
use mt_jobs.Models.SchedulerState.{TenantSchedulerState}
use mt_jobs.Domain.Payload.{payload_get}
use mt_jobs.Domain.Exceptions.{Result-cases}
use mt_jobs.Store.Exec.{Exec, pure, roll_back, roll_back-keeps, >>=-keeps, ◌>>=◌, ◌>>◌}
use mt_jobs.Store.Columns.{is_storable}
use mt_jobs.Store.Db.{
  Db, find_job, find_state, find_tenant, job_pk, dead_letter_pk, jobs_conflict, attempts_conflict,
}
use mt_jobs.Services.Submission.{Submission, submit_job}
use mt_jobs.Services.Dispatcher.{dispatch_next, dispatch_first, reserve_job, candidates}
use mt_jobs.Services.Execution.{claim_job, start_attempt, executing_job, new_attempt}
use mt_jobs.Services.Retry.{
  promote_ready_retries, promote_all, refresh_all, tenant_ids, elapsed, promoted_job,
}
use mt_jobs.Services.Heartbeat.{heartbeat, renew_lease, is_running_attempt}
use mt_jobs.Services.DeadLetter.{replay_dead_letter, clone}
use mt_jobs.Capacity.Dispatch.{is_reserved, acquire_if_asked-Claims, with_lock, wanted_lock}
use mt_jobs.Capacity.Refresh.{refresh-eq}
use mt_jobs.Capacity.Submit.{submit_cases}
use mt_jobs.Exclusion.Rows.{guards}
use mt_jobs.Exclusion.Held.{
  asked, guards_for, more-Held, rest-Held, add-Held, keep-Held, enter-Held,
}
use mt_jobs.Exclusion.Ends.{IsHeld}

module _ (to_text : Json → String) where
  pub claim_job-IsHeld :
      (now : ℕ) (hostname : String) (i : ℕ) (d : Db)
      → IsHeld to_text d
      → IsHeld to_text (claim_job now hostname i d).1
  unfolding claim_job start_attempt
  claim_job-IsHeld now hostname i d h = elim (Option-cases (find_job i d)) [
    | inl e ↦ rw e h
    | inr (j, e) ↦ elim (Bool-cases (is_status j.status JobStatus.queued)) [
      | inr other ↦ rw (e, other) h
      | inl q ↦
          let a = new_attempt d.next_uuid now hostname (executing_job now j) in
          elim (Bool-cases (any (attempts_conflict a) d.attempts)) [
            | inl clash ↦ rw (e, q, clash) h
            | inr free ↦
                rw (e, q, free)
                  (keep-Held to_text d.jobs d.locks h j (executing_job now j)
                    (find-key job_pk i j.id d.jobs e refl) refl refl refl (ground arith))
          ]
    ]
  ]

  pub heartbeat-IsHeld :
      (now i : ℕ) (d : Db) → IsHeld to_text d → IsHeld to_text (heartbeat now i d).1
  unfolding heartbeat renew_lease
  heartbeat-IsHeld now i d h =
      elim (Option-cases (head? (filter (is_running_attempt i) d.attempts))) [
        | inl e ↦ rw e h
        | inr (a, e) ↦ rw e h
      ]

  pub submit_job-IsHeld :
      (now : ℕ) (generated : String) (s : Submission) (d : Db)
      → IsHeld to_text d
      → IsHeld to_text (submit_job now generated s d).1
  submit_job-IsHeld now generated s d h = elim (submit_cases now generated s d) [
    | inl (j, _, run) ↦ rw run h
    | inr (inl (_, _, _, run)) ↦ rw run (add-Held to_text d.jobs d.locks h _ refl)
    | inr (inr (_, _, _, run)) ↦ rw run h
  ]

  pub replay_dead_letter-IsHeld :
      (now : ℕ) (generated : String) (i : ℕ) (d : Db)
      → IsHeld to_text d
      → IsHeld to_text (replay_dead_letter now generated i d).1
  unfolding replay_dead_letter
  replay_dead_letter-IsHeld now generated i d h =
      elim (Option-cases (find dead_letter_pk i d.dead_letters)) [
        | inl e ↦ rw e h
        | inr (l, e) ↦ elim (Option-cases (find_job l.job d)) [
          | inl missing ↦ rw (e, missing) h
          | inr (x, f) ↦
              let j = clone d.next_uuid now generated x in
              elim (Bool-cases (is_storable j)) [
                | inr unfit ↦ rw (e, f, unfit) h
                | inl fit ↦ elim (Bool-cases (any (jobs_conflict j) d.jobs)) [
                  | inl clash ↦ rw (e, f, fit, clash) h
                  | inr free ↦
                      rw (e, f, fit, free, refresh-eq now x.tenant)
                        (add-Held to_text d.jobs d.locks h j refl)
                ]
              ]
        ]
      ]

  promote_all-IsHeld :
      (now : ℕ) (js : List Job) (d : Db)
      → IsHeld to_text d
      → IsHeld to_text (promote_all now js d).1
  unfolding promote_all
  promote_all-IsHeld now [] d h = h
  promote_all-IsHeld now (j ∷ js) d h =
      promote_all-IsHeld now js (record d { jobs = save job_pk (promoted_job now j) d.jobs })
        (rest-Held to_text d.jobs d.locks h (promoted_job now j) refl)

  refresh_all-IsHeld :
      (now : ℕ) (ts : List ℕ) (d : Db) → IsHeld to_text d → IsHeld to_text (refresh_all now ts d).1
  unfolding refresh_all
  refresh_all-IsHeld now [] d h = h
  refresh_all-IsHeld now (t ∷ ts) d h = rw (refresh-eq now t d) (refresh_all-IsHeld now ts _ h)

  pub promote_ready_retries-IsHeld :
      (locked : ℕ → Bool) (now limit : ℕ) (d : Db)
      → IsHeld to_text d
      → IsHeld to_text (promote_ready_retries locked now limit d).1
  unfolding promote_ready_retries
  promote_ready_retries-IsHeld locked now limit d h =
      let js = elapsed locked now limit d.jobs in
      let finish : Exec Db ℕ = refresh_all now (tenant_ids js) >> pure (length js) in
      roll_back-keeps (IsHeld to_text) d ((promote_all now js >> finish) d) h (
        >>=-keeps (IsHeld to_text) (promote_all now js) (λ _. finish) d
          (promote_all-IsHeld now js d h)
          (λ _ e s.
            >>=-keeps (IsHeld to_text) (refresh_all now (tenant_ids js)) (λ _. pure (length js)) e
              (refresh_all-IsHeld now (tenant_ids js) e s) (λ _ _ t. t)))

  module _ (now : ℕ) (d : Db) (h : IsHeld to_text d) where
    reserve-IsHeld :
        (s : TenantSchedulerState) (job : Job) (e : Db)
        → IsHeld to_text e
        → ((k : String)
            → asked to_text job ≡ some k
            → any (guards_for job.id job.tenant k) e.locks ≡ true)
        → IsHeld to_text (roll_back d ((reserve_job now job s >>= λ j. pure (some j)) e)).1
    unfolding reserve_job
    reserve-IsHeld s job e k own = elim (Bool-cases (any (is_reserved job.id) e.reservations)) [
      | inl clash ↦ rw clash h
      | inr free ↦ rw free (enter-Held to_text e.jobs e.locks k now job own)
    ]

    -- The row that the dispatcher wrote is the lock that the job asks for.
    wanted-guards_for :
        (job : Job) (k k' : String)
        → k ≡ k'
        → any (guards_for job.id job.tenant k') (with_lock now job k d).locks ≡ true
    unfolding guards
    wanted-guards_for job k k' p =
        any-append (guards_for job.id job.tenant k') d.locks (wanted_lock d.next_uuid now job k) (
          rw (eq→== job.id job.id refl, eq→== job.tenant job.tenant refl) ((eq_iff k' k).1 (sym p)))

    dispatch_first-IsHeld :
        (s : TenantSchedulerState) (jobs : List Job)
        → IsHeld to_text (roll_back d (dispatch_first to_text now s jobs d)).1
    unfolding dispatch_first
    dispatch_first-IsHeld s [] = h
    dispatch_first-IsHeld s (job ∷ rest) =
        let ih = dispatch_first-IsHeld s rest in
        elim (Result-cases (payload_get job.payload "overlap_key")) [
          | inl (x, e) ↦ rw (e, dispatch_first) h
          | inr (key, e) ↦ elim (acquire_if_asked-Claims to_text now job key d) [
            | inl (_, skip) ↦ rw (e, dispatch_first, skip) ih
            | inr (inl (nothing, free)) ↦
                let own : (k : String)
                    → asked to_text job ≡ some k
                    → any (guards_for job.id job.tenant k) d.locks ≡ true =
                  λ k a. let a' = rw e at a in cc (nothing, a') in
                rw (e, dispatch_first, free) (reserve-IsHeld s job d h own)
            | inr (inr (k, wanted, _, free)) ↦
                let own : (k' : String)
                    → asked to_text job ≡ some k'
                    → any (guards_for job.id job.tenant k') (with_lock now job k d).locks ≡ true =
                  λ k' a. let a' = rw e at a in wanted-guards_for job k k' (cc (wanted, a')) in
                rw (e, dispatch_first, free)
                  (reserve-IsHeld s job (with_lock now job k d)
                    (more-Held to_text d.jobs d.locks h (wanted_lock d.next_uuid now job k)) own)
          ]
        ]

    pub dispatch_next-IsHeld :
        (locked : ℕ → Bool) (i : ℕ) → IsHeld to_text (dispatch_next to_text locked now i d).1
    unfolding dispatch_next
    dispatch_next-IsHeld locked i = elim (Option-cases (find_state i d)) [
      | inl e ↦ rw e h
      | inr (s, e) ↦ elim (Option-cases (find_tenant s.tenant d)) [
        | inl missing ↦ rw (e, missing) h
        | inr (tenant, f) ↦
            elim (Bool-cases (leb tenant.max_concurrent_jobs s.active_reservations)) [
              | inl full ↦ rw (e, f, full) h
              | inr below ↦
                  rw (e, f, below) (dispatch_first-IsHeld s (candidates locked now i d.jobs))
            ]
      ]
    ]
