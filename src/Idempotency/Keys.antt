-- ===== src/Idempotency/Keys.antt =====
-- The unique constraint on tenant and key (jobs/models/job.py), in every state reached.
use mt_jobs.Base.{
  ℕ, String, Bool, true, false, Option, some, none, List, [], ◌∷◌, ◌≡◌, ◌≤◌, refl, ap, bit, count,
  any, arith, Bool-cases, inl, inr, eq_iff,
}
use mt_jobs.Base.Table.{find-key, count-save, count-append}
use mt_jobs.Models.Job.{Job, JobStatus}
use mt_jobs.Models.Tenant.{Tenant}
use mt_jobs.Store.Db.{job_pk, jobs_conflict, same_key}
use mt_jobs.Services.Outbox.{World}
use mt_jobs.Services.Submission.{has_key}
use mt_jobs.Lifecycle.Moves.{Move, Edits}
use mt_jobs.Lifecycle.Rows.{Move-id}
use mt_jobs.System.Steps.{Reach}
use mt_jobs.System.Limit.{start, empty-IsBalanced}
use mt_jobs.System.Life.{Reach-Edits}

-- No move changes the tenant or the key.
has_key-Move :
    {ends : JobStatus → Bool} {starts : Bool} {x y : Job} (t : ℕ) (k : String)
    → Move ends starts x y
    → has_key t k y ≡ has_key t k x
has_key-Move t k (Move.dispatches now on h) = refl
has_key-Move t k (Move.claims now h) = refl
has_key-Move t k (Move.completes now r h) = refl
has_key-Move t k (Move.retries now delay m h d) = refl
has_key-Move t k (Move.gives_up now m h) = refl
has_key-Move t k (Move.promotes now h) = refl
has_key-Move t k (Move.requeues now h) = refl
has_key-Move t k (Move.cancels now h) = refl
has_key-Move t k (Move.asks now h) = refl
has_key-Move t k (Move.touches now h) = refl

same_key→eq : (o : Option String) (k : String) → same_key o (some k) ≡ true → o ≡ some k
same_key→eq none k h = cc
same_key→eq (some k') k h = ap some ((eq_iff k' k).0 h)

has_key→eq :
    (t : ℕ) (k : String) (y : Job)
    → has_key t k y ≡ true
    → (y.tenant ≡ t) × (y.idempotency_key ≡ some k)
has_key→eq t k y h = (ground arith, same_key→eq y.idempotency_key k (ground arith))

-- Where the constraint accepts a row, no other row of its tenant has its key.
free-count :
    (y : Job) (t : ℕ) (k : String) (ys : List Job)
    → any (jobs_conflict y) ys ≡ false
    → y.tenant ≡ t
    → y.idempotency_key ≡ some k
    → count (has_key t k) ys ≡ 0
unfolding any count
free-count y t k [] free p q = refl
free-count y t k (x ∷ ys) free p q = ground (arith, free-count y t k ys)

keys-Edits :
    {ends : JobStatus → Bool} {starts : Bool} {xs ys : List Job} (t : ℕ) (k : String)
    → Edits ends starts xs ys
    → count (has_key t k) xs ≤ 1
    → count (has_key t k) ys ≤ 1
keys-Edits t k Edits.start h = h
keys-Edits t k (Edits.moves {ys = ys} x y e here m) h = omega (
  arith,
  keys-Edits t k e h,
  count-save job_pk (has_key t k) y x ys (find-key job_pk x.id y.id ys here (Move-id m)),
  ap bit (has_key-Move t k m),
)
keys-Edits t k (Edits.adds {ys = ys} y e w z free fit) h =
    let more = count-append (has_key t k) ys y in
    elim (Bool-cases (has_key t k y)) [
      | inr other ↦ omega (arith, keys-Edits t k e h, more, ap bit other)
      | inl hit ↦
          let (p, q) = has_key→eq t k y hit in
          omega (arith, more, free-count y t k ys free p q, ap bit hit)
    ]

-- In every state reached from tenants without jobs by steps in which no attempt is completed or
-- failed after it has ended, at most one job of a tenant has a given key.
pub keys-le-one :
    {tenants : List Tenant} {w : World} (t : ℕ) (k : String)
    → Reach (start tenants) w
    → count (has_key t k) w.db.jobs ≤ 1
unfolding count
keys-le-one {tenants} t k r =
    keys-Edits t k (Reach-Edits (empty-IsBalanced tenants) r) (omega arith)
