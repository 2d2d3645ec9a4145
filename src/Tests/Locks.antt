-- ===== src/Tests/Locks.antt =====
-- A job that asks for a lock, and the locks once it is queued.
use mt_jobs.Base.{false, some, [], ◌∷◌, ◌≡◌, ◌≤◌, refl, count, arith}
use mt_jobs.Models.Json.{Json, end, field}
use mt_jobs.Services.Outbox.{World}
use mt_jobs.Services.SchedulerState.{refresh_scheduler_state}
use mt_jobs.Services.Submission.{Submission, submit_job, new_job}
use mt_jobs.Services.Dispatcher.{dispatch_next, queued_job}
use mt_jobs.System.Steps.{Step, Reach, here, next, after}
use mt_jobs.Models.Overlap.{locks_conflict}
use mt_jobs.Exclusion.Rows.{guards}
use mt_jobs.Exclusion.Locks.{locks-le-one}
use mt_jobs.Exclusion.Mutual.{same_key-excludes}
use mt_jobs.Models.Tenant.{Tenant}
use mt_jobs.Capacity.Balance.{holds}
use mt_jobs.System.Limit.{start}
use mt_jobs.Models.Job.{Job}
use mt_jobs.Tests.Scenario.{run_all, report, to_text, unlocked, w0, acme}

abbrev sync : Submission
sync = record report { payload = some (Json.obj (field "overlap_key" (Json.str "ledger") end)) }

abbrev submitted : World
submitted = after (submit_job 100 "u" sync) w0

abbrev refreshed : World
refreshed = after (refresh_scheduler_state 100 7) submitted

abbrev queued : World
queued = after (dispatch_next to_text unlocked 110 7) refreshed

to_queued : Reach w0 queued
to_queued =
    next (next (next here (Step.submit 100 "u" sync)) (Step.refresh 100 7))
      (Step.dispatch to_text unlocked 110 7)

one_lock : count (guards 7 "ledger") queued.db.locks ≡ 1
unfolding run_all guards locks_conflict
one_lock = refl

locks-le-one_example : count (guards 7 "ledger") queued.db.locks ≤ 1
locks-le-one_example = locks-le-one 7 "ledger" to_queued

-- A tenant with two slots, and a second job that asks for the same resource.
abbrev big : Tenant
big = record acme { max_concurrent_jobs = 2 }

abbrev v0 : World
v0 = start (big ∷ [])

abbrev sync_again : Submission
sync_again = record sync { idempotency_key = some "second" }

abbrev v1 : World
v1 = after (submit_job 101 "u" sync_again) (after (submit_job 100 "u" sync) v0)

abbrev v2 : World
v2 = after (refresh_scheduler_state 105 7) v1

abbrev v3 : World
v3 = after (dispatch_next to_text unlocked 111 7) (after (dispatch_next to_text unlocked 110 7) v2)

abbrev to_v3 : Reach v0 v3
to_v3 =
    next
      (next
        (next (next (next here (Step.submit 100 "u" sync)) (Step.submit 101 "u" sync_again))
          (Step.refresh 105 7))
        (Step.dispatch to_text unlocked 110 7))
      (Step.dispatch to_text unlocked 111 7)

abbrev ledger : Json
ledger = Json.obj (field "overlap_key" (Json.str "ledger") end)

abbrev queued_sync : Job
queued_sync = queued_job 110 (new_job 0 100 7 "REPORTS" ledger 3 "first" 100)

abbrev waiting_sync : Job
waiting_sync = new_job 1 101 7 "REPORTS" ledger 3 "second" 101

same_key-excludes_example : holds waiting_sync.status ≡ false
unfolding run_all locks_conflict
same_key-excludes_example =
    same_key-excludes to_text to_v3 (refl, (refl, (tt, (tt, (tt, tt))))) 0 1 queued_sync
      waiting_sync "ledger" (omega arith) refl refl refl refl refl refl
