-- ===== src/Workers/Numbers.antt =====
-- The numbers of the attempts in the running system: `claim_job` (jobs/services/execution.py) never
-- meets an attempt that has the number which it gives.
use mt_jobs.Base.{
  ℕ, suc, String, false, Option, some, none, List, [], ◌∷◌, ◌≡◌, ◌≤◌, ◌<◌, ◌==◌, eq→==, ==→eq, refl,
  sym, ◌∙◌, subst, any, All, arith, Option-cases, Bool-cases, inl, inr,
}
use mt_jobs.Base.Table.{find, save, find-save, find-key, All-append, All-map}
use mt_jobs.Models.Job.{Job}
use mt_jobs.Models.Attempt.{JobAttempt}
use mt_jobs.Models.Tenant.{Tenant}
use mt_jobs.Store.Db.{Db, find_job, job_pk, attempts_conflict}
use mt_jobs.Services.Execution.{claim_job, executing_job, new_attempt}
use mt_jobs.Services.Outbox.{World}
use mt_jobs.Capacity.Balance.{IsBalanced}
use mt_jobs.Lifecycle.Rows.{Edits-SameIdentity}
use mt_jobs.System.Steps.{Step, Reach, here, next}
use mt_jobs.System.Limit.{Reach-IsBalanced, start, empty-IsBalanced}
use mt_jobs.System.Life.{Step-Edits}
use mt_jobs.System.Frame.{IsWithin}
use mt_jobs.System.Frame.Claim.{claim_job-keeps, begun_db}
use mt_jobs.Workers.Bounds.{Step-Bounded}

-- How many attempts of a job have begun.
abbrev count_of : Option Job → ℕ
count_of none = 0
count_of (some j) = j.attempt_count

abbrev pub begun : Db → ℕ → ℕ
begun d i = count_of (find_job i d)

-- Each attempt has an id that was drawn, and a number that its job has reached.
abbrev pub IsNumbered : Db → Type 0
IsNumbered d = All (IsWithin d.next_uuid (begun d)) d.attempts

-- More drawn ids and begun attempts bound no less.
widened :
    (n m : ℕ) (cap wide : ℕ → ℕ) (xs : List JobAttempt)
    → n ≤ m
    → ((i : ℕ) → cap i ≤ wide i)
    → All (IsWithin n cap) xs
    → All (IsWithin m wide) xs
widened n m cap wide xs le grows a =
    All-map _ _ xs (λ x (u, k). (omega (arith, u, le), omega (arith, k, grows x.job))) a

Step-begun : {w v : World} → IsBalanced w.db → Step w v → (i : ℕ) → begun w.db i ≤ begun v.db i
Step-begun {w} {v} b s i = elim (Option-cases (find_job i w.db)) [
  | inl e ↦ rw e (omega arith)
  | inr (x, e) ↦
      let (y, f, same) = Edits-SameIdentity i x (Step-Edits b s) e in rw (e, f) same.attempts
]

begun_db-IsNumbered :
    (now : ℕ) (hostname : String) (i : ℕ) (j : Job) (d : Db)
    → find_job i d ≡ some j
    → IsNumbered d
    → ((k : ℕ) → begun d k ≤ begun (begun_db now hostname j d) k)
    → IsNumbered (begun_db now hostname j d)
begun_db-IsNumbered now hostname i j d stands h more =
    let jobs = save job_pk (executing_job now j) d.jobs in
    let own : find job_pk j.id jobs ≡ some (executing_job now j) =
      find-save job_pk j.id (executing_job now j) j d.jobs
        (find-key job_pk i j.id d.jobs stands refl)
      ∙ rw (eq→== j.id j.id refl) refl in
    All-append _ d.attempts _
      (widened d.next_uuid (suc d.next_uuid) (begun d) (λ k. count_of (find job_pk k jobs))
        d.attempts (omega arith) more h)
      (omega arith, rw own (omega arith))

claim-IsNumbered :
    (now : ℕ) (hostname : String) (i : ℕ) (d : Db)
    → IsNumbered d
    → ((k : ℕ) → begun d k ≤ begun (claim_job now hostname i d).1 k)
    → IsNumbered (claim_job now hostname i d).1
claim-IsNumbered now hostname i d h =
    claim_job-keeps (λ e. ((k : ℕ) → begun d k ≤ begun e k) → IsNumbered e) now hostname i d
      (λ _. h) (λ j e. begun_db-IsNumbered now hostname i j d e h)

Step-IsNumbered : {w v : World} → IsBalanced w.db → Step w v → IsNumbered w.db → IsNumbered v.db
Step-IsNumbered {w} {v} b s h = elim (Step-Bounded w.db.next_uuid (begun w.db) s (omega arith, h)) [
  | inl (le, a) ↦
      widened w.db.next_uuid v.db.next_uuid (begun w.db) (begun v.db) v.db.attempts le
        (Step-begun b s) a
  | inr (now, hostname, i, p) ↦
      subst (λ (u : World). IsNumbered u.db) (sym p)
        (claim-IsNumbered now hostname i w.db h
          (subst (λ (u : World). (k : ℕ) → begun w.db k ≤ begun u.db k) p (Step-begun b s)))
]

Reach-IsNumbered : {w v : World} → IsBalanced w.db → Reach w v → IsNumbered w.db → IsNumbered v.db
Reach-IsNumbered b here h = h
Reach-IsNumbered b (next r s) h = Step-IsNumbered (Reach-IsBalanced b r) s (Reach-IsNumbered b r h)

no-conflict :
    (a : JobAttempt) (n : ℕ) (cap : ℕ → ℕ) (xs : List JobAttempt)
    → n ≤ a.id
    → cap a.job < a.attempt_number
    → All (IsWithin n cap) xs
    → any (attempts_conflict a) xs ≡ false
unfolding any
no-conflict a n cap [] le lt h = refl
no-conflict a n cap (x ∷ xs) le lt ((u, k), h) = elim (Bool-cases (x.job == a.job)) [
  | inl own ↦
      let p : x.job ≡ a.job = ==→eq x.job a.job own in
      let k' : x.attempt_number ≤ cap a.job = rw p at k in
      ground (arith, no-conflict a n cap xs le lt h)
  | inr other ↦ ground (arith, other, no-conflict a n cap xs le lt h)
]

-- The next attempt of a job breaks no unique constraint.
pub next_attempt-IsFree :
    {tenants : List Tenant} {w : World} (i : ℕ) (j : Job) (now : ℕ) (hostname : String)
    → Reach (start tenants) w
    → find_job i w.db ≡ some j
    → any
        (attempts_conflict (new_attempt w.db.next_uuid now hostname (executing_job now j)))
        w.db.attempts
      ≡ false
next_attempt-IsFree {tenants} {w} i j now hostname r e =
    let h = Reach-IsNumbered (empty-IsBalanced tenants) r tt in
    let stands : find_job j.id w.db ≡ some j = find-key job_pk i j.id w.db.jobs e refl in
    no-conflict (new_attempt w.db.next_uuid now hostname (executing_job now j)) w.db.next_uuid
      (begun w.db) w.db.attempts (omega arith) (rw stands (omega arith)) h
