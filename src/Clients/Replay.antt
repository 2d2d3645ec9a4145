-- ===== src/Clients/Replay.antt =====
-- `replay_dead_letter` (jobs/services/dead_letter.py).
use mt_jobs.Base.{
  ℕ, suc, String, true, false, some, none, List, [], ◌∷◌, ◌++◌, ◌≡◌, refl, subst, any, arith,
  Option-cases, Bool-cases, inl, inr,
}
use mt_jobs.Base.Table.{find, save, find-key, find-pk, find-save, find-append}
use mt_jobs.Models.Job.{Job, JobStatus}
use mt_jobs.Models.DeadLetter.{DeadLetterJob}
use mt_jobs.Domain.Exceptions.{ok}
use mt_jobs.Store.Columns.{is_storable, key_fits}
use mt_jobs.Store.Db.{Db, find_job, job_pk, dead_letter_pk, jobs_conflict}
use mt_jobs.Services.DeadLetter.{replay_dead_letter, replayed_letter, clone}
use mt_jobs.Models.Tenant.{Tenant}
use mt_jobs.Services.Outbox.{World}
use mt_jobs.Services.Submission.{find_duplicate}
use mt_jobs.System.Steps.{Reach}
use mt_jobs.System.Limit.{start}
use mt_jobs.Clients.Fits.{clone-Fits}
use mt_jobs.Idempotency.Fresh.{new_key-IsFree}
use mt_jobs.Capacity.Submit.{find_job-fresh}
use mt_jobs.Capacity.Refresh.{refresh-eq, refresh_db}

-- A new job that waits repeats what another one asked for.
pub record IsClone (now : ℕ) (x y : Job) : Type 0 where
  pub tenant : y.tenant ≡ x.tenant
  pub job_type : y.job_type ≡ x.job_type
  pub payload : y.payload ≡ x.payload
  pub priority : y.priority ≡ x.priority
  pub waits : y.status ≡ JobStatus.waiting
  pub unused : y.attempt_count ≡ 0
  pub ready : y.available_at ≡ now

-- What a replay of an entry leaves.
abbrev pub Replayed : ℕ → ℕ → Db → Db → Job → Type 0
Replayed now i d d' y =
    (l : DeadLetterJob) × (x : Job) × (find dead_letter_pk i d.dead_letters ≡ some l)
    × (find_job l.job d ≡ some x)
    × IsClone now x y
    × (find_job y.id d ≡ none)
    × (find_job y.id d' ≡ some y)
    × (find dead_letter_pk i d'.dead_letters ≡ some (replayed_letter now y.id l))

module _ (now : ℕ) (generated : String) (i : ℕ) (d : Db) where
  module _ (l : DeadLetterJob) (x : Job) (e : find dead_letter_pk i d.dead_letters ≡ some l)
      (f : find_job l.job d ≡ some x) (fit : is_storable (clone d.next_uuid now generated x) ≡ true)
      (free : any (jobs_conflict (clone d.next_uuid now generated x)) d.jobs ≡ false) where
    abbrev new : Job
    new = clone d.next_uuid now generated x

    abbrev replayed_db : Db
    replayed_db = refresh_db now x.tenant (record d {
      next_uuid = suc d.next_uuid;
      jobs = d.jobs ++ new ∷ [];
      dead_letters = save dead_letter_pk (replayed_letter now d.next_uuid l) d.dead_letters;
    })

    replay_dead_letter-eq : replay_dead_letter now generated i d ≡ (ok new, replayed_db)
    unfolding replay_dead_letter
    replay_dead_letter-eq = rw (e, f, fit, free, refresh-eq now x.tenant) refl

    new-Replayed : Replayed now i d replayed_db new
    new-Replayed = (
      l,
      x,
      e,
      f,
      record {
        tenant = refl;
        job_type = refl;
        payload = refl;
        priority = refl;
        waits = refl;
        unused = refl;
        ready = refl;
      },
      find_job-fresh new d.jobs free,
      ground (arith, find-append job_pk new.id new d.jobs (find_job-fresh new d.jobs free)),
      ground (
        arith,
        find-pk dead_letter_pk i d.dead_letters e,
        find-save dead_letter_pk i (replayed_letter now d.next_uuid l) l d.dead_letters
            (find-key dead_letter_pk i l.id d.dead_letters e refl),
      ),
    )

  -- A `replay_dead_letter` that returns a job found the entry and its job; the returned job has a
  -- new id, stands in the table, waits from now on without attempts, and repeats tenant, type,
  -- payload and priority; and the entry is marked as replayed by it.
  pub replay_dead_letter-Replayed :
      (y : Job)
      → (replay_dead_letter now generated i d).0 ≡ ok y
      → Replayed now i d (replay_dead_letter now generated i d).1 y
  unfolding replay_dead_letter
  replay_dead_letter-Replayed y = elim (Option-cases (find dead_letter_pk i d.dead_letters)) [
    | inl e ↦ rw e (λ h. cc h)
    | inr (l, e) ↦ elim (Option-cases (find_job l.job d)) [
      | inl missing ↦ rw (e, missing) (λ h. cc h)
      | inr (x, f) ↦
          let j = clone d.next_uuid now generated x in
          elim (Bool-cases (is_storable j)) [
            | inr unfit ↦ rw (e, f, unfit) (λ h. cc h)
            | inl fit ↦ elim (Bool-cases (any (jobs_conflict j) d.jobs)) [
              | inl clash ↦ rw (e, f, fit, clash) (λ h. cc h)
              | inr free ↦ rw (replay_dead_letter-eq l x e f fit free) (λ h.
                  let p : j ≡ y = cc h in
                  subst (Replayed now i d (replayed_db l x e f fit free)) p
                    (new-Replayed l x e f fit free))
            ]
          ]
    ]
  ]

-- In every state reached from tenants without jobs by steps in which no attempt is completed or
-- failed after it has ended, for an entry of the dead letters whose job is in the table, and a
-- generated key that the column holds and the tenant has not used, `replay_dead_letter` raises
-- nothing and returns a new job, which stands in the table, waits from now on without attempts,
-- and repeats tenant, type, payload and priority; and the entry is marked as replayed by it.
pub replay_dead_letter-succeeds :
    {tenants : List Tenant} {w : World} (now : ℕ) (generated : String) (i : ℕ) (l : DeadLetterJob)
    (x : Job)
    → Reach (start tenants) w
    → find dead_letter_pk i w.db.dead_letters ≡ some l
    → find_job l.job w.db ≡ some x
    → find_duplicate x.tenant generated w.db.jobs ≡ none
    → key_fits (some generated) ≡ true
    → ((replay_dead_letter now generated i w.db).0 ≡ ok (clone w.db.next_uuid now generated x))
      × Replayed now i w.db
          (replay_dead_letter now generated i w.db).1
          (clone w.db.next_uuid now generated x)
replay_dead_letter-succeeds {w = w} now generated i l x r e f unused short =
    let free = new_key-IsFree (clone w.db.next_uuid now generated x) generated r refl refl unused in
    let fit = clone-Fits w.db.next_uuid now generated l.job x r f short in
    rw (replay_dead_letter-eq now generated i w.db l x e f fit free)
      (refl, new-Replayed now generated i w.db l x e f fit free)
