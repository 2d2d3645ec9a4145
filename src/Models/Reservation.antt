-- ===== src/Models/Reservation.antt =====
-- jobs/models/reservation.py
use mt_jobs.Base.{ℕ}

pub record JobExecutionReservation : Type 0 where
  pub id : ℕ
  pub job : ℕ
  pub tenant : ℕ
  pub lease_token : ℕ
  pub expires_at : ℕ
  pub created_at : ℕ
