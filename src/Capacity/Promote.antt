-- ===== src/Capacity/Promote.antt =====
-- `promote_ready_retries` (jobs/services/retry.py).
use mt_jobs.Base.{
  ℕ, Bool, false, not, some, List, [], ◌∷◌, ◌≡◌, refl, sym, ◌==◌, ◌&&◌, length, All, arith,
  Bool-cases, inl, inr, ==→eq,
}
use mt_jobs.Base.Table.{save, find-save, IsKeyed-found, All-filter, All-take, All-map}
use mt_jobs.Base.Sort.{All-order_by}
use mt_jobs.Models.Job.{Job}
use mt_jobs.Store.Exec.{Exec, pure, roll_back-keeps, >>=-keeps, ◌>>◌}
use mt_jobs.Store.Db.{Db, find_job, job_pk}
use mt_jobs.Services.SchedulerState.{available_before}
use mt_jobs.Services.Retry.{
  promote_ready_retries, promote_all, refresh_all, promoted_job, elapsed, is_elapsed, tenant_ids,
}
use mt_jobs.Capacity.Balance.{IsBalanced, holds, works}
use mt_jobs.Capacity.Moves.{work-IsBalanced}
use mt_jobs.Capacity.Refresh.{refresh-eq, refresh-IsBalanced}

-- A row of the database with the id and tenant of `j` that has no slot.
abbrev IsIdle : Db → Job → Type 0
IsIdle d j =
    (x : Job) × (find_job j.id d ≡ some x)
    × (x.tenant ≡ j.tenant)
    × (holds x.status ≡ false)
    × (works x.status ≡ false)

abbrev promote_db : ℕ → Job → Db → Db
promote_db now j d = record d { jobs = save job_pk (promoted_job now j) d.jobs }

promoted-IsIdle :
    (now : ℕ) (d : Db) (j k : Job) → IsIdle d j → IsIdle d k → IsIdle (promote_db now j d) k
promoted-IsIdle now d j k (x, e, t, h, w) (y, f, u, g, v) = elim (Bool-cases (j.id == k.id)) [
  | inl same ↦ (
    promoted_job now j,
    ground (arith, find-save job_pk k.id (promoted_job now j) x d.jobs e),
    ground (arith, ==→eq j.id k.id same),
    refl,
    refl,
  )
  | inr other ↦ (y, ground (arith, find-save job_pk k.id (promoted_job now j) x d.jobs e), u, g, v)
]

promote_all-IsBalanced :
    (now : ℕ) (js : List Job) (d : Db)
    → All (IsIdle d) js
    → IsBalanced d
    → IsBalanced (promote_all now js d).1
unfolding promote_all
promote_all-IsBalanced now [] d a b = b
promote_all-IsBalanced now (j ∷ js) d ((x, e, t, h, w), a) b =
    promote_all-IsBalanced now js (promote_db now j d)
      (All-map (IsIdle d) (IsIdle (promote_db now j d)) js
        (λ k. promoted-IsIdle now d j k (x, e, t, h, w)) a)
      (work-IsBalanced d (promote_db now j d) x (promoted_job now j) e (sym t) refl refl h refl
        (λ t. refl) (λ k. rw w) b)

refresh_all-IsBalanced :
    (now : ℕ) (ts : List ℕ) (d : Db) → IsBalanced d → IsBalanced (refresh_all now ts d).1
unfolding refresh_all
refresh_all-IsBalanced now [] d b = b
refresh_all-IsBalanced now (t ∷ ts) d b =
    rw (refresh-eq now t d) (refresh_all-IsBalanced now ts _ (refresh-IsBalanced now t d b))

elapsed-IsIdle :
    (locked : ℕ → Bool) (now limit : ℕ) (d : Db)
    → IsBalanced d
    → All (IsIdle d) (elapsed locked now limit d.jobs)
unfolding elapsed
elapsed-IsIdle locked now limit d b = All-take (IsIdle d) limit _ (
    All-order_by available_before (IsIdle d) _ (
      All-map _ (IsIdle d) _ (λ j (e, p). (j, e, refl, ground arith, ground arith))
        (All-filter (λ j. find_job j.id d ≡ some j) (λ j. is_elapsed now j && not (locked j.id))
          d.jobs (IsKeyed-found job_pk d.jobs b.keyed))))

pub promote_ready_retries-IsBalanced :
    (locked : ℕ → Bool) (now limit : ℕ) (d : Db)
    → IsBalanced d
    → IsBalanced (promote_ready_retries locked now limit d).1
unfolding promote_ready_retries
promote_ready_retries-IsBalanced locked now limit d b =
    let js = elapsed locked now limit d.jobs in
    let finish : Exec Db ℕ = refresh_all now (tenant_ids js) >> pure (length js) in
    let body : Exec Db ℕ = promote_all now js >> finish in
    roll_back-keeps IsBalanced d (body d) b (
      >>=-keeps IsBalanced (promote_all now js) (λ _. finish) d
        (promote_all-IsBalanced now js d (elapsed-IsIdle locked now limit d b) b)
        (λ _ d' b'.
          >>=-keeps IsBalanced (refresh_all now (tenant_ids js)) (λ _. pure (length js)) d'
            (refresh_all-IsBalanced now (tenant_ids js) d' b') (λ _ _ h. h)))
