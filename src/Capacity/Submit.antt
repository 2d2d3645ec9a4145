-- ===== src/Capacity/Submit.antt =====
-- `submit_job` (jobs/services/submission.py) and `replay_dead_letter`
-- (jobs/services/dead_letter.py), and the slots.
use mt_jobs.Base.{
  ℕ, String, true, false, none, some, List, [], ◌∷◌, ◌++◌, suc, ◌≡◌, ◌⊎◌, refl, any, arith,
  Option-cases, Bool-cases, inl, inr,
}
use mt_jobs.Base.Table.{find, save}
use mt_jobs.Models.Job.{Job}
use mt_jobs.Domain.Exceptions.{Exception, ok, err}
use mt_jobs.Store.Columns.{is_storable}
use mt_jobs.Store.Db.{Db, not_storable, find_job, job_pk, dead_letter_pk, jobs_conflict}
use mt_jobs.Services.Submission.{
  Submission, submit_job, submitted, find_duplicate, key_or_generated, existing_or_created,
  existing_on_conflict,
}
use mt_jobs.Services.DeadLetter.{replay_dead_letter, replayed_letter, clone}
use mt_jobs.Capacity.Balance.{IsBalanced}
use mt_jobs.Capacity.Moves.{create-IsBalanced}
use mt_jobs.Capacity.Refresh.{refresh-eq, refresh-IsBalanced}

-- A row that the unique constraints accept has a new key.
pub find_job-fresh :
    (j : Job) (xs : List Job) → any (jobs_conflict j) xs ≡ false → find job_pk j.id xs ≡ none
unfolding any find
find_job-fresh j [] h = refl
find_job-fresh j (x ∷ xs) h = ground (arith, find_job-fresh j xs)

module _ (now : ℕ) (generated : String) (s : Submission) (d : Db) where
  abbrev key : String
  key = key_or_generated generated s.idempotency_key

  abbrev job : Job
  job = submitted d.next_uuid now s key

  abbrev pub after_submit : Db
  after_submit = record d { next_uuid = suc d.next_uuid; jobs = d.jobs ++ job ∷ [] }

  -- Why the table takes no row: its key is there, or a column does not hold its value.
  pub data Refused : Exception → Type 0 where
    key_taken :
        is_storable job ≡ true
        → any (jobs_conflict job) d.jobs ≡ true
        → Refused (Exception.does_not_exist "Job")
    no_fit : is_storable job ≡ false → Refused not_storable

  -- The three ends of a submission: the duplicate, a new row, or a row that the table refuses.
  pub submit_cases :
      ((j : Job) × (find_duplicate s.tenant key d.jobs ≡ some j)
        × (submit_job now generated s d ≡ (ok (j, false), d)))
      ⊎ ((find_duplicate s.tenant key d.jobs ≡ none)
          × (is_storable job ≡ true)
          × (any (jobs_conflict job) d.jobs ≡ false)
          × (submit_job now generated s d ≡ (ok (job, true), after_submit)))
      ⊎ ((x : Exception) × (find_duplicate s.tenant key d.jobs ≡ none)
          × Refused x
          × (submit_job now generated s d ≡ (err x, d)))
  unfolding submit_job existing_on_conflict
  submit_cases = elim (Option-cases (find_duplicate s.tenant key d.jobs)) [
    | inr (j, e) ↦ inl (j, e, rw (e, existing_or_created) refl)
    | inl e ↦ elim (Bool-cases (is_storable job)) [
      | inr unfit ↦
          inr (inr (not_storable, e, Refused.no_fit unfit, rw (e, existing_or_created, unfit) refl))
      | inl fit ↦ elim (Bool-cases (any (jobs_conflict job) d.jobs)) [
        | inl clash ↦ inr (
            inr (
              Exception.does_not_exist "Job",
              e,
              Refused.key_taken fit clash,
              rw (e, existing_or_created, fit, clash, e) refl,
            ))
        | inr free ↦ inr (inl (e, fit, free, rw (e, existing_or_created, fit, free) refl))
      ]
    ]
  ]

  pub submit_job-IsBalanced : IsBalanced d → IsBalanced (submit_job now generated s d).1
  submit_job-IsBalanced b = elim submit_cases [
    | inl (j, _, run) ↦ rw run b
    | inr (inr (_, _, _, run)) ↦ rw run b
    | inr (inl (_, _, free, run)) ↦ rw run (
        create-IsBalanced d after_submit job (find_job-fresh job d.jobs free) refl refl refl refl
          refl refl refl b)
  ]

pub replay_dead_letter-IsBalanced :
    (now : ℕ) (generated : String) (i : ℕ) (d : Db)
    → IsBalanced d
    → IsBalanced (replay_dead_letter now generated i d).1
unfolding replay_dead_letter
replay_dead_letter-IsBalanced now generated i d b =
    elim (Option-cases (find dead_letter_pk i d.dead_letters)) [
      | inl e ↦ rw e b
      | inr (l, e) ↦ elim (Option-cases (find_job l.job d)) [
        | inl missing ↦ rw (e, missing) b
        | inr (source, f) ↦
            let j = clone d.next_uuid now generated source in
            let mid : Db = record d {
              next_uuid = suc d.next_uuid;
              jobs = d.jobs ++ j ∷ [];
              dead_letters = save dead_letter_pk (replayed_letter now j.id l) d.dead_letters;
            } in
            elim (Bool-cases (is_storable j)) [
              | inr unfit ↦ rw (e, f, unfit) b
              | inl fit ↦ elim (Bool-cases (any (jobs_conflict j) d.jobs)) [
                | inl clash ↦ rw (e, f, fit, clash) b
                | inr free ↦
                    rw (e, f, fit, free, refresh-eq now source.tenant mid)
                      (refresh-IsBalanced now source.tenant mid (
                        create-IsBalanced d mid j (find_job-fresh j d.jobs free) refl refl refl refl
                          refl refl refl b))
              ]
            ]
      ]
    ]
