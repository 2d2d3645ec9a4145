-- ===== src/Workers/Delivery.antt =====
-- The messages that the jobs are owed: the outbox (jobs/services/outbox.py), the dispatcher that fills it
-- and the workers that its messages reach.
use mt_jobs.Base.{
  subst, ℕ, suc, String, Bool, true, false, not, some, List, [], ◌∷◌, ◌++◌, ◌≡◌, ◌≤◌, ◌+◌, ◌==◌,
  ◌&&◌, refl, count, bit, any, All, arith, Bool-cases, inl, inr, eq→==,
}
use mt_jobs.Base.Table.{find, save, find-pk, All-find, All-save, All-append, All-map, count-append}
use mt_jobs.Models.Json.{Json}
use mt_jobs.Models.Job.{Job, JobStatus, is_status}
use mt_jobs.Models.Outbox.{JobOutbox, is_pending}
use mt_jobs.Models.SchedulerState.{TenantSchedulerState}
use mt_jobs.Store.Exec.{pure, roll_back, ◌>>=◌}
use mt_jobs.Store.Db.{Db, job_pk, state_pk}
use mt_jobs.Services.Dispatcher.{dispatch_next, reserve_job, candidates, queued_job, new_event}
use mt_jobs.Capacity.Balance.{IsBalanced, works}
use mt_jobs.Capacity.Dispatch.{IsCandidate, is_reserved, candidates-IsCandidate}
use mt_jobs.System.Frame.Dispatch.{IsBefore, dispatch_known-keeps}
use mt_jobs.Lifecycle.Moves.{Move, Edits}
use mt_jobs.Lifecycle.Rows.{Move-id}

-- The events about a job: all, those that wait, and those that were sent.
abbrev pub about : ℕ → JobOutbox → Bool
about i e = e.job == i

abbrev pub waits : ℕ → JobOutbox → Bool
waits i e = e.job == i && is_pending e.status

abbrev pub sent : ℕ → JobOutbox → Bool
sent i e = e.job == i && not (is_pending e.status)

-- The messages that a job has used, and one more if it is queued.
abbrev pub owed : Job → ℕ
owed j = j.attempt_count + bit (is_status j.status JobStatus.queued)

abbrev pub Covered : List JobOutbox → Job → Type 0
Covered o j = owed j ≤ count (about j.id) o

owed-Move : {x y : Job} → Move works false x y → owed y ≤ owed x
owed-Move (Move.dispatches now on h) = absurd (ground arith)
owed-Move (Move.claims now h) = ground arith
owed-Move (Move.completes now r h) = ground arith
owed-Move (Move.retries now delay m h d) = ground arith
owed-Move (Move.gives_up now m h) = ground arith
owed-Move (Move.promotes now h) = ground arith
owed-Move (Move.requeues now h) = ground arith
owed-Move (Move.cancels now h) = ground arith
owed-Move (Move.asks now h) = ground arith
owed-Move (Move.touches now h) = ground arith

Covered-Move : (o : List JobOutbox) {x y : Job} → Move works false x y → Covered o x → Covered o y
Covered-Move o m c = rw (Move-id m) (omega (arith, owed-Move m, c))

pub Covered-Edits :
    (o : List JobOutbox) {xs ys : List Job}
    → Edits works false xs ys
    → All (Covered o) xs
    → All (Covered o) ys
Covered-Edits o Edits.start a = a
Covered-Edits o (Edits.moves {ys = ys} x y e here m) a =
    let ih = Covered-Edits o e a in
    All-save job_pk (Covered o) y ys ih
      (Covered-Move o m (All-find job_pk (Covered o) x.id ys ih here))
Covered-Edits o (Edits.adds {ys = ys} y e w z free fit) a =
    All-append (Covered o) ys y (Covered-Edits o e a) (ground (arith, w, z))

-- More events cover more.
pub Covered-more :
    (o o' : List JobOutbox) (js : List Job)
    → ((i : ℕ) → count (about i) o ≤ count (about i) o')
    → All (Covered o) js
    → All (Covered o') js
Covered-more o o' js h a = All-map (Covered o) (Covered o') js (λ j c. omega (arith, c, h j.id)) a

abbrev pub AllCovered : Db → Type 0
AllCovered d = All (Covered d.outbox) d.jobs

queued-Covered :
    (id now : ℕ) (o : List JobOutbox) (js : List Job) (job : Job)
    → All (Covered o) js
    → find job_pk job.id js ≡ some job
    → job.status ≡ JobStatus.waiting
    → All (Covered (o ++ new_event id now job ∷ [])) (save job_pk (queued_job now job) js)
queued-Covered id now o js job a here w =
    let e = new_event id now job in
    let more = Covered-more o (o ++ e ∷ []) js (λ i. omega (arith, count-append (about i) o e)) a in
    let own : (job.id == job.id) ≡ true = eq→== job.id job.id refl in
    All-save job_pk (Covered (o ++ e ∷ [])) (queued_job now job) js more (
      ground (
        arith,
        w,
        own,
        count-append (about job.id) o e,
        All-find job_pk (Covered o) job.id js a here,
      ))

-- A database whose jobs are covered and that has sent what `d` has.
abbrev pub Owes : Db → Db → Type 0
Owes d e = AllCovered e × ((i : ℕ) → count (sent i) e.outbox ≡ count (sent i) d.outbox)

module _ (now : ℕ) (d : Db) (h : AllCovered d) where
  idle-Owes : Owes d d
  idle-Owes = (h, λ i. refl)

  reserve-Owes :
      (s : TenantSchedulerState) (job : Job) (e : Db)
      → e.jobs ≡ d.jobs
      → e.outbox ≡ d.outbox
      → IsCandidate s d job
      → Owes d (roll_back d ((reserve_job now job s >>= λ j. pure (some j)) e)).1
  unfolding reserve_job
  reserve-Owes s job e same box (here, w, _) =
      elim (Bool-cases (any (is_reserved job.id) e.reservations)) [
        | inl clash ↦ rw clash idle-Owes
        | inr free ↦
            rw (free, same, box)
              (
                queued-Covered (suc (suc e.next_uuid)) now d.outbox d.jobs job h here w,
                λ i. ground (
                  arith,
                  count-append (sent i) d.outbox (new_event (suc (suc e.next_uuid)) now job),
                ),
              )
      ]

  -- Taking a lock writes neither jobs nor events.
  before-tables :
      (job : Job) (e : Db) → IsBefore now d job e → (e.jobs ≡ d.jobs) × (e.outbox ≡ d.outbox)
  before-tables job e (inl p) = rw p (refl, refl)
  before-tables job e (inr (k, _, p)) = rw p (refl, refl)

  pub dispatch_next-Owes :
      (to_text : Json → String) (locked : ℕ → Bool) (i : ℕ)
      → IsBalanced d
      → Owes d (dispatch_next to_text locked now i d).1
  dispatch_next-Owes to_text locked i b =
      dispatch_known-keeps (Owes d) (λ s. IsCandidate s d) now d idle-Owes
        (λ s job e c p. let (same, box) = before-tables job e p in reserve-Owes s job e same box c)
        to_text locked i
        (λ s e.
          subst (λ t. All (IsCandidate s d) (candidates locked now t d.jobs))
            (find-pk state_pk i d.scheduler_states e) (candidates-IsCandidate locked now s d b))
