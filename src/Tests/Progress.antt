-- ===== src/Tests/Progress.antt =====
-- The theorems on progress, and on what stands in its way, on the scenario.
use mt_jobs.Base.{true, none, some, [], ◌∷◌, ◌≡◌, ◌≤◌, ◌+◌, refl, count, length, arith}
use mt_jobs.Models.Json.{Json}
use mt_jobs.Models.Job.{Job}
use mt_jobs.Models.SchedulerState.{TenantSchedulerState}
use mt_jobs.Models.Attempt.{FailureType}
use mt_jobs.Domain.Exceptions.{Exception, ok, err}
use mt_jobs.Store.Db.{find_job}
use mt_jobs.Services.Outbox.{World}
use mt_jobs.Services.SchedulerState.{refresh_scheduler_state, new_state}
use mt_jobs.Services.Submission.{submit_job, new_job}
use mt_jobs.Services.Dispatcher.{dispatch_next}
use mt_jobs.Services.Execution.{fail_job, retrying_job}
use mt_jobs.Services.Retry.{promote_ready_retries, elapsed, promoted_job}
use mt_jobs.Services.Reconciliation.{reconcile_expired}
use mt_jobs.Tasks.{dispatch_jobs, ready_tenants}
use mt_jobs.Capacity.Balance.{IsBalanced}
use mt_jobs.System.Steps.{Step, Reach, next, after}
use mt_jobs.System.Limit.{Reach-IsBalanced, empty-IsBalanced}
use mt_jobs.Scheduling.Progress.{Takes, dispatch_next-Takes}
use mt_jobs.Scheduling.Wake.{IsWoken}
use mt_jobs.Scheduling.Retries.{promote_ready_retries-Promotes}
use mt_jobs.Scheduling.Poison.{after_runs, dispatch_jobs-raises}
use mt_jobs.Workers.Delivery.{waits, sent, owed}
use mt_jobs.Workers.Messages.{messages, owed-le-messages}
use mt_jobs.Workers.Reaper.{HasEnded}
use mt_jobs.Workers.Zombies.{reconcile_expired-ends}
use mt_jobs.Tests.Scenario.{
  run_all, acme, report, to_text, unlocked, w0, w2, w4, to_w1, to_w4, job, attempt, job_runs,
  attempt_runs, waiting_job, w4-IsBalanced,
}

w2-IsBalanced : IsBalanced w2.db
w2-IsBalanced = Reach-IsBalanced (empty-IsBalanced (acme ∷ [])) (next to_w1 (Step.refresh 100 7))

abbrev idle : TenantSchedulerState
idle = record (new_state 100 7) {
  has_ready_work = true;
  highest_ready_priority = some 3;
  next_ready_at = some 100;
}

dispatch_next-Takes_example : Takes (dispatch_next to_text unlocked 110 7 w2.db)
unfolding run_all
dispatch_next-Takes_example =
    dispatch_next-Takes to_text unlocked 110 7 w2.db w2-IsBalanced ((λ _. (none, refl)), tt)
      (ground arith) waiting_job refl refl (λ b. ground (arith, b)) idle acme refl refl
      (ground arith)

abbrev bad : Exception
bad = Exception.retryable_job_error "bad"

-- The job waits for its retry.
abbrev failed : World
failed = after (fail_job 130 4 bad FailureType.transient "trace") w4

failed-IsBalanced : IsBalanced failed.db
failed-IsBalanced =
    Reach-IsBalanced {w = w4} w4-IsBalanced (
      next Reach.here (Step.fail 130 4 attempt bad FailureType.transient "trace" attempt_runs refl))

promote_ready_retries-Promotes_example :
    ((promote_ready_retries unlocked 3000130 100 failed.db).0
      ≡ ok (length (elapsed unlocked 3000130 100 failed.db.jobs)))
    × (find_job 0 (promote_ready_retries unlocked 3000130 100 failed.db).1
        ≡ some (promoted_job 3000130 (retrying_job 130 3 "bad" job)))
    × IsWoken 7 (promote_ready_retries unlocked 3000130 100 failed.db).1
unfolding run_all
promote_ready_retries-Promotes_example =
    promote_ready_retries-Promotes 3000130 0 (retrying_job 130 3 "bad" job) refl unlocked 100
      failed.db failed-IsBalanced.keyed refl refl (ground arith)

-- A job whose payload is a number, and a less urgent one that is available later.
abbrev poisoned : World
poisoned = after (refresh_scheduler_state 100 7) (
    after
      (submit_job 100 "u"
        (record report { priority = 4; idempotency_key = some "next"; available_at = some 105 }))
      (after (submit_job 100 "u" (record report { payload = some (Json.num 5) })) w0))

abbrev poison : Job
poison = new_job 0 100 7 "REPORTS" (Json.num 5) 3 "first" 100

abbrev missing : Exception
missing = Exception.attribute_error "object has no attribute 'get'"

dispatch_jobs-raises_example :
    dispatch_jobs to_text unlocked 120
      (after_runs to_text ((unlocked, 102) ∷ (unlocked, 110) ∷ []) poisoned.db)
    ≡ (err missing, poisoned.db)
unfolding run_all ready_tenants
dispatch_jobs-raises_example =
    dispatch_jobs-raises 7 poisoned.db poison (refl, (refl, tt)) refl refl
      ((λ w h. cc h), ((λ w h. refl), tt)) to_text idle acme missing [] refl refl (ground arith)
      refl refl ((unlocked, 102) ∷ (unlocked, 110) ∷ []) unlocked 120
      ((ground arith, refl), ((ground arith, refl), tt)) (ground arith, refl)

-- The lease of the running attempt is over.
reconcile_expired-ends_example :
    ((reconcile_expired 400000000 100 w4.db).0 ≡ ok tt)
    × IsBalanced (reconcile_expired 400000000 100 w4.db).1
    × HasEnded 4 (reconcile_expired 400000000 100 w4.db).1
unfolding run_all
reconcile_expired-ends_example =
    reconcile_expired-ends 400000000 100 w4.db w4-IsBalanced 4 attempt attempt_runs refl
      (ground arith)

owed-le-messages_example :
    (messages 0 w4.queue ≡ count (sent 0) w4.db.outbox)
    × (owed job ≤ messages 0 w4.queue + count (waits 0) w4.db.outbox)
owed-le-messages_example = owed-le-messages 0 job to_w4 job_runs
