-- ===== src/Services/Heartbeat.antt =====
-- jobs/services/heartbeat.py
use mt_jobs.Base.{ℕ, Bool, true, false, none, some, ◌+◌, ◌==◌, ◌&&◌, filter, head?, update}
use mt_jobs.Models.Attempt.{JobAttempt, is_running}
use mt_jobs.Models.Reservation.{JobExecutionReservation}
use mt_jobs.Store.Exec.{Exec, pure, gets, modify, ◌>>=◌, ◌>>◌}
use mt_jobs.Store.Db.{Db}
use mt_jobs.Services.Overlap.{seconds}

abbrev pub lease_seconds : ℕ
lease_seconds = 300

abbrev pub is_running_attempt : ℕ → JobAttempt → Bool
is_running_attempt attempt_id a = a.id == attempt_id && is_running a.status

abbrev pub renew_attempt : ℕ → ℕ → JobAttempt → JobAttempt
renew_attempt now expires_at a = record a {
  heartbeat_at = some now;
  lease_expires_at = some expires_at;
}

abbrev pub renew_reservation : ℕ → JobExecutionReservation → JobExecutionReservation
renew_reservation expires_at r = record r { expires_at = expires_at }

unfoldable pub renew_lease : ℕ → JobAttempt → Exec Db Bool
renew_lease now attempt = do
  let expires_at = now + seconds lease_seconds
  modify (λ d. record d {
    attempts =
        update (λ (a : JobAttempt). a.id == attempt.id) (renew_attempt now expires_at) d.attempts;
  })
  modify (λ d. record d {
    reservations =
        update (λ (r : JobExecutionReservation). r.job == attempt.job)
          (renew_reservation expires_at) d.reservations;
  })
  pure true

unfoldable pub heartbeat : ℕ → ℕ → Exec Db Bool
unfolding renew_lease
heartbeat now attempt_id = do
  attempt ← gets (λ (d : Db). head? (filter (is_running_attempt attempt_id) d.attempts))
  elim attempt [ none ↦ pure false | some a ↦ renew_lease now a ]
