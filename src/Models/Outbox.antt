-- ===== src/Models/Outbox.antt =====
-- jobs/models/outbox.py
use mt_jobs.Base.{ℕ, String, Bool, true, false, Option}
use mt_jobs.Models.Json.{Json}

pub data OutboxEventType : Type 0 where
  dispatch_job : OutboxEventType

pub data OutboxStatus : Type 0 where
  pending published : OutboxStatus

-- `status == PENDING`
abbrev pub is_pending : OutboxStatus → Bool
is_pending OutboxStatus.pending = true
is_pending OutboxStatus.published = false

pub record JobOutbox : Type 0 where
  pub id : ℕ
  pub job : ℕ
  pub event_type : OutboxEventType
  pub status : OutboxStatus
  pub payload : Json
  pub publish_attempts : ℕ
  pub available_at : ℕ
  pub published_at : Option ℕ
  pub last_error : Option String
  pub created_at : ℕ
  pub updated_at : ℕ
