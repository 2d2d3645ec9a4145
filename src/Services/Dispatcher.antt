-- ===== src/Services/Dispatcher.antt =====
-- jobs/services/dispatcher.py. `locked` says which job rows another transaction holds, which
-- `select_for_update(skip_locked=True)` passes over; `to_text` is the conversion of Django's
-- `CharField` on an overlap key.
use mt_jobs.Base.{
  ℕ, String, Bool, true, not, Option, none, some, List, [], ◌∷◌, ◌+◌, ◌&&◌, leb, if◌then◌else◌,
  filter, take,
}
use mt_jobs.Base.Sort.{order_by}
use mt_jobs.Models.Json.{Json, end, truthy}
use mt_jobs.Models.Job.{Job, JobStatus}
use mt_jobs.Models.Overlap.{OverlapScope}
use mt_jobs.Models.Outbox.{JobOutbox, OutboxEventType, OutboxStatus}
use mt_jobs.Models.Reservation.{JobExecutionReservation}
use mt_jobs.Models.SchedulerState.{TenantSchedulerState}
use mt_jobs.Domain.Payload.{payload_get}
use mt_jobs.Store.Exec.{Exec, pure, lift, gets, atomic, ◌>>=◌, ◌>>◌}
use mt_jobs.Store.Db.{
  Db, uuid4, get_state, get_tenant, save_job, save_state, create_reservation, create_outbox,
}
use mt_jobs.Services.SchedulerState.{is_ready, before, is_some}
use mt_jobs.Services.Overlap.{minutes, acquire_overlap}

abbrev pub candidate_limit : ℕ
candidate_limit = 10

unfoldable pub candidates : (ℕ → Bool) → ℕ → ℕ → List Job → List Job
candidates locked now tenant_id jobs =
    take candidate_limit
      (order_by before (filter (λ (j : Job). is_ready now tenant_id j && not (locked j.id)) jobs))

abbrev pub queued_job : ℕ → Job → Job
queued_job now job = record job {
  status = JobStatus.queued;
  queued_at = some now;
  updated_at = now;
}

abbrev pub dispatched_state : ℕ → TenantSchedulerState → TenantSchedulerState
dispatched_state now state = record state {
  active_reservations = state.active_reservations + 1;
  last_dispatched_at = some now;
  updated_at = now;
}

abbrev pub new_reservation : ℕ → ℕ → ℕ → Job → TenantSchedulerState → JobExecutionReservation
new_reservation id lease_token now job state = record {
  id = id;
  job = job.id;
  tenant = state.tenant;
  lease_token = lease_token;
  expires_at = now + minutes 5;
  created_at = now;
}

abbrev pub new_event : ℕ → ℕ → Job → JobOutbox
new_event id now job = record {
  id = id;
  job = job.id;
  event_type = OutboxEventType.dispatch_job;
  status = OutboxStatus.pending;
  payload = Json.obj end;
  publish_attempts = 0;
  available_at = now;
  published_at = none;
  last_error = none;
  created_at = now;
  updated_at = now;
}

-- `_reserve_job`, with the job as it leaves it.
unfoldable pub reserve_job : ℕ → Job → TenantSchedulerState → Exec Db Job
reserve_job now job state = do
  id ← uuid4
  lease_token ← uuid4
  _ ← create_reservation (new_reservation id lease_token now job state)
  save_job (queued_job now job)
  save_state (dispatched_state now state)
  event_id ← uuid4
  _ ← create_outbox (new_event event_id now job)
  pure (queued_job now job)

-- Whether the job may run: `not (overlap_key and not acquire_overlap(job, overlap_key))`.
unfoldable pub acquire_if_asked : (Json → String) → ℕ → Job → Option Json → Exec Db Bool
acquire_if_asked to_text now job none = pure true
acquire_if_asked to_text now job (some key) =
    if truthy key
    then (do lock ← acquire_overlap now job (to_text key) OverlapScope.tenant; pure (is_some lock))
    else pure true

-- The loop over the candidates: the first that may run is reserved.
unfoldable pub dispatch_first :
    (Json → String) → ℕ → TenantSchedulerState → List Job → Exec Db (Option Job)
dispatch_first to_text now state [] = pure none
dispatch_first to_text now state (job ∷ rest) =
    let skip = dispatch_first to_text now state rest in
    do
      overlap_key ← lift (payload_get job.payload "overlap_key")
      free ← acquire_if_asked to_text now job overlap_key
      if free then (do reserved ← reserve_job now job state; pure (some reserved)) else skip

unfoldable pub dispatch_next : (Json → String) → (ℕ → Bool) → ℕ → ℕ → Exec Db (Option Job)
unfolding candidates dispatch_first
dispatch_next to_text locked now tenant_id = atomic (do
  state ← get_state tenant_id
  tenant ← get_tenant state.tenant
  jobs ← gets (λ (d : Db). d.jobs)
  if leb tenant.max_concurrent_jobs state.active_reservations
      then pure none
      else dispatch_first to_text now state (candidates locked now tenant_id jobs))
