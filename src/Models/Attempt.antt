-- ===== src/Models/Attempt.antt =====
-- jobs/models/attempt.py
use mt_jobs.Base.{ℕ, String, Bool, Option, ◌==◌}

pub data AttemptStatus : Type 0 where
  running succeeded failed timed_out abandoned cancelled : AttemptStatus

abbrev pub attempt_code : AttemptStatus → ℕ
attempt_code AttemptStatus.running = 0
attempt_code AttemptStatus.succeeded = 1
attempt_code AttemptStatus.failed = 2
attempt_code AttemptStatus.timed_out = 3
attempt_code AttemptStatus.abandoned = 4
attempt_code AttemptStatus.cancelled = 5

-- `status == RUNNING`
abbrev pub is_running : AttemptStatus → Bool
is_running s = attempt_code s == 0

pub data FailureType : Type 0 where
  transient permanent infrastructure timeout unknown : FailureType

pub record JobAttempt : Type 0 where
  pub id : ℕ
  pub job : ℕ
  pub attempt_number : ℕ
  pub status : AttemptStatus
  pub worker_id : Option String
  pub failure_type : Option FailureType
  pub error_code : Option String
  pub error_message : Option String
  pub traceback : Option String
  pub started_at : ℕ
  pub finished_at : Option ℕ
  pub heartbeat_at : Option ℕ
  pub lease_expires_at : Option ℕ
  pub created_at : ℕ
