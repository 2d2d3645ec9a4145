-- ===== src/Lifecycle/Services/Others.antt =====
-- The other services that write jobs: submission, dispatch, claim, promotion, cancellation, recovery
-- and replay.
use mt_jobs.Base.{
  ℕ, String, Bool, false, not, some, List, [], ◌∷◌, ◌≡◌, refl, ◌∙◌, ◌==◌, ◌&&◌, any, All, length,
  arith, Option-cases, Bool-cases, inl, inr,
}
use mt_jobs.Base.Table.{
  find, save, find-key, find-save, IsKeyed, IsKeyed-found, All-filter, All-take, All-map,
}
use mt_jobs.Base.Sort.{All-order_by}
use mt_jobs.Base.Keys.{All-apart, IsKeyed-filter, IsKeyed-take, IsKeyed-order_by}
use mt_jobs.Models.Job.{Job, JobStatus, is_status, is_status→eq}
use mt_jobs.Store.Exec.{Exec, pure, roll_back, roll_back-keeps, >>=-keeps, ◌>>◌}
use mt_jobs.Store.Columns.{is_storable}
use mt_jobs.Store.Db.{Db, find_job, job_pk, dead_letter_pk, jobs_conflict, attempts_conflict}
use mt_jobs.Services.Execution.{claim_job, executing_job, new_attempt}
use mt_jobs.Services.SchedulerState.{available_before}
use mt_jobs.Services.Retry.{
  promote_ready_retries, promote_all, refresh_all, promoted_job, elapsed, is_elapsed, tenant_ids,
}
use mt_jobs.Services.Cancellation.{
  cancel_job, cancel_in, cancelled_job, cancel_requested_job, touched_job,
}
use mt_jobs.Services.Reconciliation.{recover_queued, requeued_job}
use mt_jobs.Services.Submission.{Submission, submit_job, submitted, key_or_generated}
use mt_jobs.Services.DeadLetter.{replay_dead_letter, clone}
use mt_jobs.Capacity.Refresh.{refresh-eq}
use mt_jobs.Capacity.Submit.{submit_cases}
use mt_jobs.Lifecycle.Moves.{Move, Edits, one_move}
use mt_jobs.Lifecycle.Services.Finish.{History, release_cases}

module _ (ends : JobStatus → Bool) (starts : Bool) (now : ℕ) (d : Db) where
  pub claim_job-History :
      (hostname : String) (i : ℕ) → History ends starts now d (claim_job now hostname i d).1
  unfolding claim_job
  claim_job-History hostname i = elim (Option-cases (find_job i d)) [
    | inl e ↦ rw e Edits.start
    | inr (j, e) ↦ elim (Bool-cases (is_status j.status JobStatus.queued)) [
      | inr other ↦ rw (e, other) Edits.start
      | inl q ↦
          let a = new_attempt d.next_uuid now hostname (executing_job now j) in
          elim (Bool-cases (any (attempts_conflict a) d.attempts)) [
            | inl clash ↦ rw (e, q, clash) Edits.start
            | inr free ↦
                rw (e, q, free)
                  (one_move d.jobs j (executing_job now j) (find-key job_pk i j.id d.jobs e refl)
                    (Move.claims now (is_status→eq j.status JobStatus.queued q)))
          ]
    ]
  ]

  module _ (j : Job) (here : find_job j.id d ≡ some j) where
    cancel_in-History :
        (s : JobStatus)
        → j.status ≡ s
        → History ends starts now d (roll_back d (cancel_in now j s d)).1
    unfolding cancel_in
    cancel_in-History JobStatus.succeeded e = Edits.start
    cancel_in-History JobStatus.failed_final e = Edits.start
    cancel_in-History JobStatus.cancelled e = Edits.start
    cancel_in-History JobStatus.waiting e =
        one_move d.jobs j (cancelled_job now j) here (Move.cancels now (rw e refl))
    cancel_in-History JobStatus.retry_wait e =
        one_move d.jobs j (cancelled_job now j) here (Move.cancels now (rw e refl))
    cancel_in-History JobStatus.executing e =
        one_move d.jobs j (cancel_requested_job now j) here (Move.asks now e)
    cancel_in-History JobStatus.cancel_requested e =
        one_move d.jobs j (touched_job now j) here (Move.touches now e)
    cancel_in-History JobStatus.queued e =
        let j' = cancelled_job now j in
        elim (release_cases now j' d) [
          | inl (x, f, run) ↦ rw run Edits.start
          | inr (f, run, same) ↦
              rw (run, same) (one_move d.jobs j j' here (Move.cancels now (rw e refl)))
        ]

  pub cancel_job-History : (i : ℕ) → History ends starts now d (cancel_job now i d).1
  unfolding cancel_job
  cancel_job-History i = elim (Option-cases (find_job i d)) [
    | inl e ↦ rw e Edits.start
    | inr (j, e) ↦ rw e (cancel_in-History j (find-key job_pk i j.id d.jobs e refl) j.status refl)
  ]

  pub recover_queued-History : (i : ℕ) → History ends starts now d (recover_queued now i d).1
  unfolding recover_queued
  recover_queued-History i = elim (Option-cases (find_job i d)) [
    | inl e ↦ rw e Edits.start
    | inr (j, e) ↦ elim (Bool-cases (is_status j.status JobStatus.queued)) [
      | inr other ↦ rw (e, other) Edits.start
      | inl q ↦
          let j' = requeued_job now j in
          let mid : Db = record d { jobs = save job_pk j' d.jobs } in
          elim (release_cases now j' mid) [
            | inl (x, f, run) ↦ rw (e, q, run) Edits.start
            | inr (f, run, same) ↦
                rw (e, q, run, refresh-eq, same)
                  (one_move d.jobs j j' (find-key job_pk i j.id d.jobs e refl)
                    (Move.requeues now (is_status→eq j.status JobStatus.queued q)))
          ]
    ]
  ]

  pub submit_job-History :
      (generated : String) (s : Submission)
      → History ends starts now d (submit_job now generated s d).1
  submit_job-History generated s = elim (submit_cases now generated s d) [
    | inl (j, _, run) ↦ rw run Edits.start
    | inr (inr (_, _, _, run)) ↦ rw run Edits.start
    | inr (inl (_, fit, free, run)) ↦ rw run (
        Edits.adds (submitted d.next_uuid now s (key_or_generated generated s.idempotency_key))
          Edits.start refl refl free fit)
  ]

  pub replay_dead_letter-History :
      (generated : String) (i : ℕ)
      → History ends starts now d (replay_dead_letter now generated i d).1
  unfolding replay_dead_letter
  replay_dead_letter-History generated i =
      elim (Option-cases (find dead_letter_pk i d.dead_letters)) [
        | inl e ↦ rw e Edits.start
        | inr (l, e) ↦ elim (Option-cases (find_job l.job d)) [
          | inl missing ↦ rw (e, missing) Edits.start
          | inr (source, f) ↦
              let j = clone d.next_uuid now generated source in
              elim (Bool-cases (is_storable j)) [
                | inr unfit ↦ rw (e, f, unfit) Edits.start
                | inl fit ↦ elim (Bool-cases (any (jobs_conflict j) d.jobs)) [
                  | inl clash ↦ rw (e, f, fit, clash) Edits.start
                  | inr free ↦
                      rw (e, f, fit, free, refresh-eq) (Edits.adds j Edits.start refl refl free fit)
                ]
              ]
        ]
      ]

  abbrev IsElapsed : Db → Job → Type 0
  IsElapsed e j = (find_job j.id e ≡ some j) × (j.status ≡ JobStatus.retry_wait)

  promote_all-History :
      (js : List Job) (e : Db)
      → All (IsElapsed e) js
      → IsKeyed job_pk js
      → History ends starts now d e
      → History ends starts now d (promote_all now js e).1
  unfolding promote_all
  promote_all-History [] e a k h = h
  promote_all-History (j ∷ js) e ((here, w), a) (apart, k) h =
      let j' = promoted_job now j in
      let e' : Db = record e { jobs = save job_pk j' e.jobs } in
      promote_all-History js e' (others js (All-apart job_pk j.id js apart) a) k
        (Edits.moves j j' h here (Move.promotes now w))
    where
      others :
          (ks : List Job)
          → All (λ x. (j.id == x.id) ≡ false) ks
          → All (IsElapsed e) ks
          → All (IsElapsed (record e { jobs = save job_pk (promoted_job now j) e.jobs })) ks
      others [] n b = tt
      others (x ∷ ks) (n, ns) ((f, v), b) =
          ((find-save job_pk x.id (promoted_job now j) j e.jobs here ∙ rw n f, v), others ks ns b)

  refresh_all-History :
      (ts : List ℕ) (e : Db)
      → History ends starts now d e
      → History ends starts now d (refresh_all now ts e).1
  unfolding refresh_all
  refresh_all-History [] e h = h
  refresh_all-History (t ∷ ts) e h = rw (refresh-eq now t e) (refresh_all-History ts _ h)

  pub promote_ready_retries-History :
      (locked : ℕ → Bool) (limit : ℕ)
      → IsKeyed job_pk d.jobs
      → History ends starts now d (promote_ready_retries locked now limit d).1
  unfolding promote_ready_retries elapsed
  promote_ready_retries-History locked limit k =
      let test = λ (j : Job). is_elapsed now j && not (locked j.id) in
      let js = elapsed locked now limit d.jobs in
      let finish : Exec Db ℕ = refresh_all now (tenant_ids js) >> pure (length js) in
      let body : Exec Db ℕ = promote_all now js >> finish in
      let rows : All (IsElapsed d) js = All-take (IsElapsed d) limit _ (
        All-order_by available_before (IsElapsed d) _ (
          All-map _ (IsElapsed d) _ (λ j (e, p). (e, ground arith))
            (All-filter (λ j. find_job j.id d ≡ some j) test d.jobs
              (IsKeyed-found job_pk d.jobs k)))) in
      let keys : IsKeyed job_pk js =
        IsKeyed-take job_pk limit _
          (IsKeyed-order_by job_pk available_before _ (IsKeyed-filter job_pk test d.jobs k)) in
      roll_back-keeps (History ends starts now d) d (body d) Edits.start (
        >>=-keeps (History ends starts now d) (promote_all now js) (λ _. finish) d
          (promote_all-History js d rows keys Edits.start)
          (λ _ d' h.
            >>=-keeps (History ends starts now d) (refresh_all now (tenant_ids js))
              (λ _. pure (length js)) d' (refresh_all-History (tenant_ids js) d' h) (λ _ _ g. g)))
