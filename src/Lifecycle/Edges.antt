-- ===== src/Lifecycle/Edges.antt =====
-- The graph of the statuses, against ALLOWED_TRANSITIONS of jobs/domain/transitions.py. No service
-- calls `validate_transition`.
use mt_jobs.Base.{ℕ, Bool, true, false, some, List, ◌≡◌, ◌⊎◌, inl, inr, refl, arith}
use mt_jobs.Base.Table.{find}
use mt_jobs.Models.Job.{Job, JobStatus}
use mt_jobs.Domain.Exceptions.{ok}
use mt_jobs.Domain.StateMachine.{validate_transition}
use mt_jobs.Store.Db.{job_pk}
use mt_jobs.Capacity.Balance.{works}
use mt_jobs.Lifecycle.Moves.{Move, Edits, cancels_at_once}
use mt_jobs.Lifecycle.Rows.{Edits-row}

-- The changes of status that the services make. `allowed` are those of ALLOWED_TRANSITIONS that
-- occur, and the other three are no entries of that map.
pub data Edge : JobStatus → JobStatus → Type 0 where
  allowed : {a b : JobStatus} → validate_transition a b ≡ ok tt → Edge a b
  queued_cancelled : Edge JobStatus.queued JobStatus.cancelled
  cancel_retried : Edge JobStatus.cancel_requested JobStatus.retry_wait
  cancel_failed : Edge JobStatus.cancel_requested JobStatus.failed_final

pub data Walk (a : JobStatus) : JobStatus → Type 0 where
  stay : Walk a a
  walk : {b c : JobStatus} → Walk a b → Edge b c → Walk a c

completes-Edge : (s : JobStatus) → works s ≡ true → Edge s JobStatus.succeeded
unfolding validate_transition
completes-Edge JobStatus.executing h = Edge.allowed refl
completes-Edge JobStatus.cancel_requested h = Edge.allowed refl
completes-Edge s h = cc

retries-Edge : (s : JobStatus) → works s ≡ true → Edge s JobStatus.retry_wait
unfolding validate_transition
retries-Edge JobStatus.executing h = Edge.allowed refl
retries-Edge JobStatus.cancel_requested h = Edge.cancel_retried
retries-Edge s h = cc

gives_up-Edge : (s : JobStatus) → works s ≡ true → Edge s JobStatus.failed_final
unfolding validate_transition
gives_up-Edge JobStatus.executing h = Edge.allowed refl
gives_up-Edge JobStatus.cancel_requested h = Edge.cancel_failed
gives_up-Edge s h = cc

cancels-Edge : (s : JobStatus) → cancels_at_once s ≡ true → Edge s JobStatus.cancelled
unfolding validate_transition
cancels-Edge JobStatus.waiting h = Edge.allowed refl
cancels-Edge JobStatus.retry_wait h = Edge.allowed refl
cancels-Edge JobStatus.queued h = Edge.queued_cancelled
cancels-Edge s h = cc

Move-Edge : {x y : Job} → Move works true x y → (x.status ≡ y.status) ⊎ Edge x.status y.status
unfolding validate_transition
Move-Edge (Move.dispatches now on h) = inr (rw h (Edge.allowed refl))
Move-Edge (Move.claims now h) = inr (rw h (Edge.allowed refl))
Move-Edge {x = x} (Move.completes now r h) = inr (completes-Edge x.status h)
Move-Edge {x = x} (Move.retries now delay m h d) = inr (retries-Edge x.status h)
Move-Edge {x = x} (Move.gives_up now m h) = inr (gives_up-Edge x.status h)
Move-Edge (Move.promotes now h) = inr (rw h (Edge.allowed refl))
Move-Edge (Move.requeues now h) = inr (rw h (Edge.allowed refl))
Move-Edge {x = x} (Move.cancels now h) = inr (cancels-Edge x.status h)
Move-Edge (Move.asks now h) = inr (rw h (Edge.allowed refl))
Move-Edge (Move.touches now h) = inl refl

Walk-step : (x y z : Job) → Walk x.status y.status → Move works true y z → Walk x.status z.status
Walk-step x y z p m = elim (Move-Edge m) [ inl e ↦ rw (← e) p | inr e ↦ Walk.walk p e ]

-- The status of a row moves along the edges alone.
pub Edits-Walk :
    {xs ys : List Job} (i : ℕ) (x : Job)
    → Edits works true xs ys
    → find job_pk i xs ≡ some x
    → (y : Job) × (find job_pk i ys ≡ some y) × Walk x.status y.status
Edits-Walk = Edits-row (λ x y. Walk x.status y.status) (λ x. Walk.stay) Walk-step

abbrev pub is_terminal : JobStatus → Bool
is_terminal JobStatus.succeeded = true
is_terminal JobStatus.failed_final = true
is_terminal JobStatus.cancelled = true
is_terminal _ = false

-- A row that has ended is as it was.
abbrev pub Stays : Job → Job → Type 0
Stays x y = is_terminal x.status ≡ true → y ≡ x

terminal-no-Move : {x y : Job} → is_terminal x.status ≡ true → Move works true x y → ⊥
terminal-no-Move {x = x} t (Move.dispatches now on h) = ground arith
terminal-no-Move {x = x} t (Move.claims now h) = ground arith
terminal-no-Move {x = x} t (Move.completes now r h) = ground arith
terminal-no-Move {x = x} t (Move.retries now delay m h d) = ground arith
terminal-no-Move {x = x} t (Move.gives_up now m h) = ground arith
terminal-no-Move {x = x} t (Move.promotes now h) = ground arith
terminal-no-Move {x = x} t (Move.requeues now h) = ground arith
terminal-no-Move {x = x} t (Move.cancels now h) = ground arith
terminal-no-Move {x = x} t (Move.asks now h) = ground arith
terminal-no-Move {x = x} t (Move.touches now h) = ground arith

-- A job that has succeeded, failed for good or been cancelled never changes again.
pub Edits-Stays :
    {xs ys : List Job} (i : ℕ) (x : Job)
    → Edits works true xs ys
    → find job_pk i xs ≡ some x
    → (y : Job) × (find job_pk i ys ≡ some y) × Stays x y
Edits-Stays = Edits-row Stays (λ x t. refl) λ x y z s m t. absurd (terminal-no-Move (rw (s t) t) m)
