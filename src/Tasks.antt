-- ===== src/Tasks.antt =====
-- jobs/tasks.py: what the workers and Celery Beat call.
use mt_jobs.Base.{ℕ, String, Bool, List, [], ◌∷◌, filter, take, map}
use mt_jobs.Models.Json.{Json}
use mt_jobs.Models.SchedulerState.{TenantSchedulerState}
use mt_jobs.Store.Exec.{Exec, pure, gets, ◌>>=◌}
use mt_jobs.Store.Db.{Db}
use mt_jobs.Services.Dispatcher.{dispatch_next}
use mt_jobs.Services.Execution.{Worker, execute}
use mt_jobs.Services.Outbox.{World, Broker, publish_pending}
use mt_jobs.Services.Retry.{promote_ready_retries}
use mt_jobs.Services.Reconciliation.{reconcile_expired}

unfoldable pub execute_job : Worker → ℕ → Exec Db (Unit {0})
unfolding execute
execute_job w job_id = execute w job_id

unfoldable pub process_retries : (ℕ → Bool) → ℕ → Exec Db ℕ
unfolding promote_ready_retries
process_retries locked now = promote_ready_retries locked now 100

unfoldable pub publish_outbox : Broker → ℕ → Exec World (Unit {0})
unfolding publish_pending
publish_outbox broker now = publish_pending broker now 100

-- `TenantSchedulerState.objects.filter(has_ready_work=True)[:100]`
unfoldable pub ready_tenants : Db → List ℕ
ready_tenants d = take 100 (
    map (λ (s : TenantSchedulerState). s.tenant)
      (filter (λ (s : TenantSchedulerState). s.has_ready_work) d.scheduler_states))

unfoldable pub dispatch_each : (Json → String) → (ℕ → Bool) → ℕ → List ℕ → Exec Db (Unit {0})
dispatch_each to_text locked now [] = pure tt
dispatch_each to_text locked now (t ∷ rest) =
    dispatch_next to_text locked now t >>= λ _. dispatch_each to_text locked now rest

unfoldable pub dispatch_jobs : (Json → String) → (ℕ → Bool) → ℕ → Exec Db (Unit {0})
unfolding ready_tenants dispatch_each
dispatch_jobs to_text locked now = do
  tenant_ids ← gets ready_tenants
  dispatch_each to_text locked now tenant_ids

unfoldable pub reconcile_zombies : ℕ → Exec Db (Unit {0})
unfolding reconcile_expired
reconcile_zombies now = reconcile_expired now 100
