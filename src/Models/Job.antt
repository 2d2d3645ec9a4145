-- ===== src/Models/Job.antt =====
-- jobs/models/job.py
use mt_jobs.Base.{ℕ, String, Bool, true, Option, ◌==◌, ◌≡◌, arith}
use mt_jobs.Models.Json.{Json}

pub data JobStatus : Type 0 where
  waiting queued executing retry_wait cancel_requested succeeded failed_final cancelled : JobStatus

-- The text that the column holds.
unfoldable pub value : JobStatus → String
value JobStatus.waiting = "WAITING"
value JobStatus.queued = "QUEUED"
value JobStatus.executing = "EXECUTING"
value JobStatus.retry_wait = "RETRY_WAIT"
value JobStatus.cancel_requested = "CANCEL_REQUESTED"
value JobStatus.succeeded = "SUCCEEDED"
value JobStatus.failed_final = "FAILED_FINAL"
value JobStatus.cancelled = "CANCELLED"

abbrev pub status_code : JobStatus → ℕ
status_code JobStatus.waiting = 0
status_code JobStatus.queued = 1
status_code JobStatus.executing = 2
status_code JobStatus.retry_wait = 3
status_code JobStatus.cancel_requested = 4
status_code JobStatus.succeeded = 5
status_code JobStatus.failed_final = 6
status_code JobStatus.cancelled = 7

-- `a == b` on statuses
abbrev pub is_status : JobStatus → JobStatus → Bool
is_status a b = status_code a == status_code b

pub is_status→eq : (a b : JobStatus) → is_status a b ≡ true → a ≡ b
is_status→eq a b h = ground arith

pub data JobPriority : Type 0 where
  highest high normal low lowest : JobPriority

-- The number that the column holds.
abbrev pub priority_value : JobPriority → ℕ
priority_value JobPriority.highest = 1
priority_value JobPriority.high = 2
priority_value JobPriority.normal = 3
priority_value JobPriority.low = 4
priority_value JobPriority.lowest = 5

pub data JobType : Type 0 where
  reports data_processing synchronization ai_processing notification : JobType

-- The text that the column holds.
unfoldable pub type_value : JobType → String
type_value JobType.reports = "REPORTS"
type_value JobType.data_processing = "DATA_PROCESSING"
type_value JobType.synchronization = "SYNCHRONIZATION"
type_value JobType.ai_processing = "AI_PROCESSING"
type_value JobType.notification = "NOTIFICATION"

pub record Job : Type 0 where
  pub id : ℕ
  pub tenant : ℕ
  pub job_type : String
  pub status : JobStatus
  pub priority : ℕ
  pub payload : Json
  pub result : Option Json
  pub idempotency_key : Option String
  pub available_at : ℕ
  pub ready_since : ℕ
  pub attempt_count : ℕ
  pub last_error_code : Option String
  pub last_error_message : Option String
  pub queued_at : Option ℕ
  pub started_at : Option ℕ
  pub completed_at : Option ℕ
  pub cancelled_at : Option ℕ
  pub created_at : ℕ
  pub updated_at : ℕ
