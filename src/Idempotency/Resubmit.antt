-- ===== src/Idempotency/Resubmit.antt =====
-- A key that is used again (jobs/services/submission.py).
use mt_jobs.Base.{
  ℕ, String, true, false, some, List, [], ◌∷◌, ◌≡◌, ◌≤◌, refl, subst, ◌∙◌, count, filter, head?,
  arith, eq_iff,
}
use mt_jobs.Base.Table.{find, count-find-le}
use mt_jobs.Models.Job.{Job}
use mt_jobs.Models.Tenant.{Tenant}
use mt_jobs.Domain.Exceptions.{ok}
use mt_jobs.Store.Db.{find_job, job_pk}
use mt_jobs.Services.Outbox.{World}
use mt_jobs.Services.Submission.{
  Submission, submit_job, has_key, find_duplicate, key_or_generated, existing_or_created,
}
use mt_jobs.Lifecycle.Rows.{SameIdentity}
use mt_jobs.System.Steps.{Reach, Reach-trans}
use mt_jobs.System.Limit.{start, empty-IsBalanced, Reach-IsBalanced}
use mt_jobs.System.Life.{job-SameIdentity}
use mt_jobs.Idempotency.Keys.{keys-le-one}

-- A row that alone has its key is the one that the query finds.
find_duplicate-only :
    (i t : ℕ) (k : String) (jobs : List Job) {y : Job}
    → find job_pk i jobs ≡ some y
    → has_key t k y ≡ true
    → count (has_key t k) jobs ≤ 1
    → find_duplicate t k jobs ≡ some y
unfolding find count find_duplicate filter head?
find_duplicate-only i t k [] f h c = ground arith
find_duplicate-only i t k (x ∷ xs) {y} f h c =
    ground
      (arith, find_duplicate-only i t k xs {y = y}, count-find-le job_pk (has_key t k) i xs {x = y})

has_key_self : (y : Job) (k : String) → y.idempotency_key ≡ some k → has_key y.tenant k y ≡ true
has_key_self y k e = rw e (ground (arith, (eq_iff k k).1 refl))

-- Once a state reached from tenants without jobs has a job with a key, a submission in any later
-- state, reached by steps in which no attempt is completed or failed after it has ended, for the
-- same tenant and with the same key returns that job, says that it was not created, and changes
-- nothing.
pub resubmit :
    {tenants : List Tenant} {w v : World} (i : ℕ) (x : Job) (k : String)
    → Reach (start tenants) w
    → find_job i w.db ≡ some x
    → x.idempotency_key ≡ some k
    → Reach w v
    → (now : ℕ) (generated : String) (s : Submission) → s.tenant ≡ x.tenant
    → key_or_generated generated s.idempotency_key ≡ k
    → (y : Job) × (find_job i v.db ≡ some y)
      × SameIdentity x y
      × (submit_job now generated s v.db ≡ (ok (y, false), v.db))
unfolding submit_job existing_or_created
resubmit {tenants} {w} {v} i x k r f e rv now generated s p q =
    let (y, g, same) = job-SameIdentity i x (Reach-IsBalanced (empty-IsBalanced tenants) r) rv f in
    let only = keys-le-one x.tenant k (Reach-trans r rv) in
    let hit : has_key x.tenant k y ≡ true =
      subst (λ t. has_key t k y ≡ true) same.tenant (has_key_self y k (same.idempotency_key ∙ e)) in
    let dup = find_duplicate-only i x.tenant k v.db.jobs g hit only in
    (y, g, same, rw (p, q, dup) refl)
