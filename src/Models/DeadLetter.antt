-- ===== src/Models/DeadLetter.antt =====
-- jobs/models/dead_letter.py
use mt_jobs.Base.{ℕ, String, Option}
use mt_jobs.Models.Json.{Json}

pub data DeadLetterReason : Type 0 where
  retries_exhausted permanent_failure handler_not_found invalid_configuration poison_job :
      DeadLetterReason

pub data DeadLetterStatus : Type 0 where
  opened replayed dismissed : DeadLetterStatus

pub record DeadLetterJob : Type 0 where
  pub id : ℕ
  pub job : ℕ
  pub tenant : ℕ
  pub reason : DeadLetterReason
  pub status : DeadLetterStatus
  pub error_code : Option String
  pub error_message : Option String
  pub last_attempt_number : Option ℕ
  pub metadata : Json
  pub replayed_job : Option ℕ
  pub created_at : ℕ
  pub replayed_at : Option ℕ
  pub dismissed_at : Option ℕ
