-- ===== src/Services/DeadLetter.antt =====
-- jobs/services/dead_letter.py. `generated` is the text of the UUID that is the new job's key.
use mt_jobs.Base.{ℕ, String, some}
use mt_jobs.Models.Job.{Job}
use mt_jobs.Models.DeadLetter.{DeadLetterJob, DeadLetterStatus}
use mt_jobs.Store.Exec.{Exec, pure, atomic, ◌>>=◌, ◌>>◌}
use mt_jobs.Store.Db.{Db, uuid4, get_job, get_dead_letter, save_dead_letter, create_job}
use mt_jobs.Services.Submission.{new_job}
use mt_jobs.Services.SchedulerState.{refresh_scheduler_state}

abbrev pub replayed_letter : ℕ → ℕ → DeadLetterJob → DeadLetterJob
replayed_letter now new_id dlq = record dlq {
  status = DeadLetterStatus.replayed;
  replayed_job = some new_id;
  replayed_at = some now;
}

abbrev pub clone : ℕ → ℕ → String → Job → Job
clone id now generated source =
    new_job id now source.tenant source.job_type source.payload source.priority generated now

unfoldable pub replay_dead_letter : ℕ → String → ℕ → Exec Db Job
replay_dead_letter now generated dead_letter_id = atomic (do
  dlq ← get_dead_letter dead_letter_id
  source ← get_job dlq.job
  id ← uuid4
  job ← create_job (clone id now generated source)
  save_dead_letter (replayed_letter now job.id dlq)
  refresh_scheduler_state now job.tenant
  pure job)
