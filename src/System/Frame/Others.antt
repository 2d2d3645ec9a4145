-- ===== src/System/Frame/Others.antt =====
-- The services that neither end an attempt nor free a slot (jobs/services), and the steps.
use mt_jobs.Base.{
  ℕ, String, Bool, List, [], ◌∷◌, ◌≡◌, ◌⊎◌, refl, sym, subst, any, length, Option-cases, Bool-cases,
  inl, inr, arith,
}
use mt_jobs.Base.Table.{find}
use mt_jobs.Models.Json.{Json}
use mt_jobs.Models.Job.{Job}
use mt_jobs.Store.Exec.{Exec, pure, roll_back-keeps, >>=-keeps, ◌>>◌}
use mt_jobs.Store.Columns.{is_storable}
use mt_jobs.Store.Db.{Db, find_job, dead_letter_pk, jobs_conflict}
use mt_jobs.Services.Submission.{Submission, submit_job}
use mt_jobs.Services.Dispatcher.{dispatch_next}
use mt_jobs.Services.Execution.{claim_job}
use mt_jobs.Services.Retry.{promote_ready_retries, promote_all, refresh_all, tenant_ids, elapsed}
use mt_jobs.Services.Heartbeat.{heartbeat}
use mt_jobs.Services.Outbox.{World, Broker, publish_event}
use mt_jobs.Services.DeadLetter.{replay_dead_letter, clone}
use mt_jobs.Capacity.Refresh.{refresh-eq}
use mt_jobs.Capacity.Submit.{submit_cases}
use mt_jobs.System.Steps.{Step, Reach, here, next, IsDispatch, IsPublish, IsClaim}
use mt_jobs.System.Frame.{Frame, JobRows, Kept-same}
use mt_jobs.System.Frame.Ends.{
  refresh-keeps, complete_job-keeps, fail_job-keeps, fail_attempt-keeps, reconcile_attempt-keeps,
  recover_queued-keeps, cancel_job-keeps,
}

module _ {κ} (P : Db → Type κ) (frame : Frame P) where
  open frame use {other as same}

  pub submit_job-keeps :
      (now : ℕ) (generated : String) (s : Submission) (d : Db)
      → P d
      → P (submit_job now generated s d).1
  submit_job-keeps now generated s d h = elim (submit_cases now generated s d) [
    | inl (j, _, run) ↦ rw run h
    | inr (inl (_, _, _, run)) ↦ rw run (
        same d _ refl refl refl
          (Kept-same d _ (omega arith) refl (JobRows.added _ refl (omega arith))) h)
    | inr (inr (_, _, _, run)) ↦ rw run h
  ]

  pub replay_dead_letter-keeps :
      (now : ℕ) (generated : String) (i : ℕ) (d : Db)
      → P d
      → P (replay_dead_letter now generated i d).1
  unfolding replay_dead_letter
  replay_dead_letter-keeps now generated i d h =
      elim (Option-cases (find dead_letter_pk i d.dead_letters)) [
        | inl e ↦ rw e h
        | inr (l, e) ↦ elim (Option-cases (find_job l.job d)) [
          | inl missing ↦ rw (e, missing) h
          | inr (x, f) ↦
              let j = clone d.next_uuid now generated x in
              elim (Bool-cases (is_storable j)) [
                | inr unfit ↦ rw (e, f, unfit) h
                | inl fit ↦ elim (Bool-cases (any (jobs_conflict j) d.jobs)) [
                  | inl clash ↦ rw (e, f, fit, clash) h
                  | inr free ↦
                      rw (e, f, fit, free, refresh-eq now x.tenant)
                        (same d _ refl refl refl
                          (Kept-same d _ (omega arith) refl (JobRows.added _ refl (omega arith))) h)
                ]
              ]
        ]
      ]

  promote_all-keeps : (now : ℕ) (js : List Job) (d : Db) → P d → P (promote_all now js d).1
  unfolding promote_all
  promote_all-keeps now [] d h = h
  promote_all-keeps now (j ∷ js) d h =
      promote_all-keeps now js _
        (same d _ refl refl refl (Kept-same d _ (omega arith) refl (JobRows.saved _ refl)) h)

  refresh_all-keeps : (now : ℕ) (ts : List ℕ) (d : Db) → P d → P (refresh_all now ts d).1
  unfolding refresh_all
  refresh_all-keeps now [] d h = h
  refresh_all-keeps now (t ∷ ts) d h = rw (refresh-eq now t d) (
      refresh_all-keeps now ts _
        (same d _ refl refl refl (Kept-same d _ (omega arith) refl (JobRows.same refl)) h))

  pub promote_ready_retries-keeps :
      (locked : ℕ → Bool) (now limit : ℕ) (d : Db)
      → P d
      → P (promote_ready_retries locked now limit d).1
  unfolding promote_ready_retries
  promote_ready_retries-keeps locked now limit d h =
      let js = elapsed locked now limit d.jobs in
      let finish : Exec Db ℕ = refresh_all now (tenant_ids js) >> pure (length js) in
      roll_back-keeps P d ((promote_all now js >> finish) d) h (
        >>=-keeps P (promote_all now js) (λ _. finish) d (promote_all-keeps now js d h)
          (λ _ e s.
            >>=-keeps P (refresh_all now (tenant_ids js)) (λ _. pure (length js)) e
              (refresh_all-keeps now (tenant_ids js) e s) (λ _ _ t. t)))

  -- The heartbeat, the dispatcher, the publication of an event and the claim write the tables otherwise.
  module _ (beats : (now i : ℕ) (d : Db) → P d → P (heartbeat now i d).1) where
    -- The queue is written by the publication of an event alone.
    pub Step-keeps :
        {w v : World}
        → Step w v
        → P w.db
        → (P v.db × (v.queue ≡ w.queue)) ⊎ IsPublish w v ⊎ IsDispatch w v ⊎ IsClaim w v
    Step-keeps {w} (Step.publish broker now i) h = inr (inl (broker, now, i, refl))
    Step-keeps {w} (Step.submit now generated s) h =
        inl (submit_job-keeps now generated s w.db h, refl)
    Step-keeps {w} (Step.refresh now t) h = inl (refresh-keeps P frame now t w.db h, refl)
    Step-keeps {w} (Step.dispatch to_text locked now t) h =
        inr (inr (inl (to_text, locked, now, t, refl)))
    Step-keeps {w} (Step.claim now hostname i) h = inr (inr (inr (now, hostname, i, refl)))
    Step-keeps {w} (Step.beat now i) h = inl (beats now i w.db h, refl)
    Step-keeps {w} (Step.complete now i a result e live) h =
        inl (complete_job-keeps P frame now i result w.db h, refl)
    Step-keeps {w} (Step.fail now i a exc t traceback e live) h =
        inl (fail_job-keeps P frame now i exc t traceback w.db h, refl)
    Step-keeps {w} (Step.fails now i a exc t e live) h =
        inl (fail_attempt-keeps P frame now i exc t w.db h, refl)
    Step-keeps {w} (Step.promote locked now limit) h =
        inl (promote_ready_retries-keeps locked now limit w.db h, refl)
    Step-keeps {w} (Step.cancel now i) h = inl (cancel_job-keeps P frame now i w.db h, refl)
    Step-keeps {w} (Step.reap now i) h = inl (reconcile_attempt-keeps P frame now i w.db h, refl)
    Step-keeps {w} (Step.recover now i) h = inl (recover_queued-keeps P frame now i w.db h, refl)
    Step-keeps {w} (Step.replay now generated i) h =
        inl (replay_dead_letter-keeps now generated i w.db h, refl)

    module _
        (dispatches : (to_text : Json → String) (locked : ℕ → Bool) (now t : ℕ) (d : Db)
          → P d
          → P (dispatch_next to_text locked now t d).1)
        (publishes : (broker : Broker) (now i : ℕ) (w : World)
          → P w.db
          → P (publish_event broker now i w).1.db)
        (claims : (now : ℕ) (hostname : String) (i : ℕ) (d : Db)
          → P d
          → P (claim_job now hostname i d).1) where
      Step-keeps_all : {w v : World} → Step w v → P w.db → P v.db
      Step-keeps_all {w} s h = elim (Step-keeps s h) [
        | inl (k, _) ↦ k
        | inr (inr (inr (now, hostname, i, p))) ↦
            subst (λ (u : World). P u.db) (sym p) (claims now hostname i w.db h)
        | inr (inr (inl (to_text, locked, now, t, p))) ↦
            subst (λ (u : World). P u.db) (sym p) (dispatches to_text locked now t w.db h)
        | inr (inl (broker, now, i, p)) ↦
            subst (λ (u : World). P u.db) (sym p) (publishes broker now i w h)
      ]

      pub Reach-keeps : {w v : World} → P w.db → Reach w v → P v.db
      Reach-keeps h here = h
      Reach-keeps h (next r s) = Step-keeps_all s (Reach-keeps h r)
