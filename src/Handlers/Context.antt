-- ===== src/Handlers/Context.antt =====
-- jobs/handlers/context.py and jobs/handlers/base.py
use mt_jobs.Base.{ℕ, Bool}
use mt_jobs.Models.Json.{Json}
use mt_jobs.Models.Job.{Job}
use mt_jobs.Models.Attempt.{JobAttempt}
use mt_jobs.Store.Exec.{Exec}
use mt_jobs.Store.Db.{Db}
use mt_jobs.Services.Heartbeat

pub record JobContext : Type 0 where
  pub job : Job
  pub attempt : JobAttempt

-- `JobContext.heartbeat`
unfoldable pub heartbeat : JobContext → ℕ → Exec Db Bool
heartbeat self now = Heartbeat.heartbeat now self.attempt.id

-- `BaseJobHandler.execute`: a handler may read and write the database, and raise.
abbrev pub Handler : Type 0
Handler = Json → JobContext → Exec Db Json
