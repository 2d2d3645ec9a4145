-- ===== src/Lifecycle/Rows.antt =====
-- What every history keeps of a row.
use mt_jobs.Base.{
  ℕ, Bool, some, none, List, ◌≡◌, ◌≤◌, refl, sym, subst, ◌∙◌, All, arith, ◌==◌, Bool-cases, inl,
  inr, ==→eq,
}
use mt_jobs.Base.Table.{find, find-save, find-append, find-key, All-find, All-save, All-append}
use mt_jobs.Models.Job.{Job, JobStatus}
use mt_jobs.Store.Db.{job_pk}
use mt_jobs.Services.Execution.{retry_delays}
use mt_jobs.Capacity.Submit.{find_job-fresh}
use mt_jobs.Lifecycle.Moves.{Move, Edits}

-- The attempts that a job may have had in a status.
abbrev pub attempt_cap : JobStatus → ℕ
attempt_cap JobStatus.waiting = 3
attempt_cap JobStatus.queued = 3
attempt_cap JobStatus.retry_wait = 3
attempt_cap _ = 4

abbrev pub IsBounded : Job → Type 0
IsBounded j = j.attempt_count ≤ attempt_cap j.status

pub attempt_cap-le : (s : JobStatus) → attempt_cap s ≤ 4
attempt_cap-le s = ground arith

retry_delays-le : (n : ℕ) {delay : ℕ} → retry_delays n ≡ some delay → n ≤ 3
unfolding retry_delays
retry_delays-le n h = ground arith

Move-IsBounded :
    {ends : JobStatus → Bool} {starts : Bool} {x y : Job}
    → Move ends starts x y
    → IsBounded x
    → IsBounded y
Move-IsBounded (Move.dispatches now on h) b = ground arith
Move-IsBounded {x = x} (Move.claims now h) b = ground arith
Move-IsBounded {x = x} (Move.completes now r h) b = ground (arith, attempt_cap-le x.status)
Move-IsBounded {x = x} (Move.retries now delay m h d) b =
    ground (arith, retry_delays-le x.attempt_count d)
Move-IsBounded {x = x} (Move.gives_up now m h) b = ground (arith, attempt_cap-le x.status)
Move-IsBounded (Move.promotes now h) b = ground arith
Move-IsBounded (Move.requeues now h) b = ground arith
Move-IsBounded {x = x} (Move.cancels now h) b = ground (arith, attempt_cap-le x.status)
Move-IsBounded (Move.asks now h) b = ground arith
Move-IsBounded (Move.touches now h) b = ground arith

pub Move-id :
    {ends : JobStatus → Bool} {starts : Bool} {x y : Job} → Move ends starts x y → y.id ≡ x.id
Move-id (Move.dispatches now on h) = refl
Move-id (Move.claims now h) = refl
Move-id (Move.completes now r h) = refl
Move-id (Move.retries now delay m h d) = refl
Move-id (Move.gives_up now m h) = refl
Move-id (Move.promotes now h) = refl
Move-id (Move.requeues now h) = refl
Move-id (Move.cancels now h) = refl
Move-id (Move.asks now h) = refl
Move-id (Move.touches now h) = refl

pub Edits-IsBounded :
    {ends : JobStatus → Bool} {starts : Bool} {xs ys : List Job}
    → Edits ends starts xs ys
    → All IsBounded xs
    → All IsBounded ys
Edits-IsBounded Edits.start b = b
Edits-IsBounded (Edits.moves {ys = ys} x y e here m) b =
    let ih = Edits-IsBounded e b in
    All-save job_pk IsBounded y ys ih (Move-IsBounded m (All-find job_pk IsBounded x.id ys ih here))
Edits-IsBounded (Edits.adds {ys = ys} y e w z free fit) b =
    All-append IsBounded ys y (Edits-IsBounded e b) (ground arith)

-- What no service ever rewrites.
pub record SameIdentity (x y : Job) : Type 0 where
  pub id : y.id ≡ x.id
  pub tenant : y.tenant ≡ x.tenant
  pub job_type : y.job_type ≡ x.job_type
  pub payload : y.payload ≡ x.payload
  pub priority : y.priority ≡ x.priority
  pub idempotency_key : y.idempotency_key ≡ x.idempotency_key
  pub created_at : y.created_at ≡ x.created_at
  pub attempts : x.attempt_count ≤ y.attempt_count

module _ {κ} {ends : JobStatus → Bool} {starts : Bool} (R : Job → Job → Type κ)
    (same : (x : Job) → R x x) (step : (x y z : Job) → R x y → Move ends starts y z → R x z) where
  -- A row stays in the table, and what each move keeps holds between its first and last state.
  pub Edits-row :
      {xs ys : List Job} (i : ℕ) (x : Job)
      → Edits ends starts xs ys
      → find job_pk i xs ≡ some x
      → (y : Job) × (find job_pk i ys ≡ some y) × R x y
  Edits-row i x Edits.start f = (x, f, same x)
  Edits-row i x (Edits.moves {ys = ys} u v e here m) f =
      let (y, g, r) = Edits-row i x e f in
      let law = find-save job_pk i v u ys (find-key job_pk u.id v.id ys here (Move-id m)) in
      elim (Bool-cases (v.id == i)) [
        | inr other ↦ (y, law ∙ rw other g, r)
        | inl hit ↦
            let at = find-key job_pk u.id i ys here (sym (==→eq v.id i hit) ∙ Move-id m) in
            let p : y ≡ u = cc (g, at) in
            (v, law ∙ rw hit refl, step x u v (subst (λ z. R x z) p r) m)
      ]
  Edits-row i x (Edits.adds {ys = ys} v e w z free fit) f =
      let (y, g, r) = Edits-row i x e f in
      let law = find-append job_pk i v ys (find_job-fresh v ys free) in
      elim (Bool-cases (v.id == i)) [
        | inr other ↦ (y, law ∙ rw other g, r)
        | inl hit ↦
            let none_here = find-key' v.id i ys (find_job-fresh v ys free) (==→eq v.id i hit) in
            absurd (cc (sym none_here ∙ g))
      ]
    where
      find-key' :
          (k n : ℕ) (ys : List Job) → find job_pk k ys ≡ none → k ≡ n → find job_pk n ys ≡ none
      find-key' k n ys h p = subst (λ q. find job_pk q ys ≡ none) p h

SameIdentity-step :
    {ends : JobStatus → Bool} {starts : Bool} (x y z : Job)
    → SameIdentity x y
    → Move ends starts y z
    → SameIdentity x z
SameIdentity-step x y z s (Move.dispatches now on h) = ground arith
SameIdentity-step x y z s m = ground arith

-- A row stays in the table, and no service rewrites its id, tenant, type, payload, priority, key or
-- time of creation, nor lowers its number of attempts.
pub Edits-SameIdentity :
    {ends : JobStatus → Bool} {starts : Bool} {xs ys : List Job} (i : ℕ) (x : Job)
    → Edits ends starts xs ys
    → find job_pk i xs ≡ some x
    → (y : Job) × (find job_pk i ys ≡ some y) × SameIdentity x y
Edits-SameIdentity =
    Edits-row SameIdentity
      (λ x. record {
        id = refl;
        tenant = refl;
        job_type = refl;
        payload = refl;
        priority = refl;
        idempotency_key = refl;
        created_at = refl;
        attempts = omega arith;
      })
      SameIdentity-step
