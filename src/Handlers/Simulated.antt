-- ===== src/Handlers/Simulated.antt =====
-- jobs/handlers/simulated.py. How long a handler sleeps is not modelled; what it raises is.
use mt_jobs.Base.{ℕ, String, true, false, Option, none, some, [], leb, if◌then◌else◌}
use mt_jobs.Models.Json.{Json, end, field, truthy?}
use mt_jobs.Models.Job.{JobType, type_value}
use mt_jobs.Domain.Exceptions.{Exception, Result, ok, err}
use mt_jobs.Domain.Payload.{payload_get}
use mt_jobs.Store.Exec.{lift}
use mt_jobs.Handlers.Context.{JobContext, Handler}
use mt_jobs.Handlers.Registry.{Registry, register}

infixl 10 ◌then_do◌
abbrev pub ◌then_do◌ : {A B : Type 0} → Result A → (A → Result B) → Result B
ok a then_do f = f a
err e then_do f = err e

-- The number that Python compares: a Boolean is one, and the rest raise a `TypeError`.
unfoldable pub as_number : Json → Result ℕ
as_number (Json.num n) = ok n
as_number (Json.bool true) = ok 1
as_number (Json.bool false) = ok 0
as_number v = err (Exception.type_error "'>' not supported between instances")

abbrev pub get_default : Option Json → Json → Json
get_default none v = v
get_default (some w) v = w

abbrev fail_below : JobContext → ℕ → Result (Unit {0})
fail_below context fail_until =
    if leb context.attempt.attempt_number fail_until
    then err (Exception.retryable_job_error "Simulated temporary failure")
    else ok tt

-- The temporary failure of `_sleep`; a handler that passes no context has none.
abbrev fail_until_attempt : Option Json → Option JobContext → Result (Unit {0})
fail_until_attempt fail_until none = ok tt
fail_until_attempt fail_until (some context) =
    as_number (get_default fail_until (Json.num 1)) then_do fail_below context

-- The comparison of `duration` with 30.
abbrev check_duration : Option Json → Result (Unit {0})
check_duration none = ok tt
check_duration (some Json.null) = ok tt
check_duration (some v) = as_number v then_do λ n. ok tt

unfoldable pub sleep : Json → Option JobContext → Result (Unit {0})
unfolding payload_get truthy? as_number
sleep payload context = payload_get payload "simulate_permanent_failure" then_do λ permanent.
    if truthy? permanent
    then err (Exception.permanent_job_error "Simulated permanent failure")
    else payload_get payload "simulate_temporary_failure" then_do λ temporary.
        payload_get payload "fail_until_attempt" then_do λ fail_until.
        (if truthy? temporary then fail_until_attempt fail_until context else ok tt) then_do λ _.
        payload_get payload "duration" then_do check_duration

abbrev single : String → Json → Json
single k v = Json.obj (field k v end)

-- A handler that sleeps and then returns a constant.
abbrev sleeps_then : Json → Handler
sleeps_then result payload context = lift (sleep payload (some context) then_do λ _. ok result)

unfoldable pub report_handler : Handler
unfolding sleep
report_handler payload context = lift (
    sleep payload (some context) then_do λ _. payload_get payload "report_id" then_do λ report_id.
    ok (
      Json.obj (
        field "report_id" (get_default report_id Json.null)
          (field "status" (Json.str "generated") end))))

unfoldable pub data_processing_handler : Handler
unfolding sleep
data_processing_handler = sleeps_then (single "processed" (Json.bool true))

unfoldable pub sync_handler : Handler
unfolding sleep
sync_handler = sleeps_then (single "synced" (Json.bool true))

unfoldable pub ai_handler : Handler
unfolding sleep
ai_handler = sleeps_then (single "processed" (Json.bool true))

unfoldable pub notification_handler : Handler
unfolding sleep
notification_handler = sleeps_then (single "sent" (Json.bool true))

unfoldable pub temporary_failure_handler : Handler
unfolding payload_get as_number
temporary_failure_handler payload context = lift (
    payload_get payload "fail_until_attempt" then_do λ fail_until.
    as_number (get_default fail_until (Json.num 2)) then_do λ n.
    fail_below context n then_do λ _. ok (single "success_after_retry" (Json.bool true)))

unfoldable pub permanent_failure_handler : Handler
permanent_failure_handler payload context =
    lift (err (Exception.permanent_job_error "Simulated permanent failure"))

unfoldable pub overlap_handler : Handler
unfolding sleep
overlap_handler payload context = lift (
    sleep payload none then_do λ _. payload_get payload "overlap_key" then_do λ key. ok (
      Json.obj
        (field "resource" (get_default key Json.null) (field "completed" (Json.bool true) end))))

-- The registry that the decorators of the module fill.
unfoldable pub registry : Registry
unfolding register type_value report_handler data_processing_handler sync_handler ai_handler
    notification_handler temporary_failure_handler permanent_failure_handler overlap_handler
registry = register "OVERLAP" overlap_handler (
    register "PERMANENT_FAILURE" permanent_failure_handler (
      register "TEMPORARY_FAILURE" temporary_failure_handler (
        register (type_value JobType.notification) notification_handler (
          register (type_value JobType.ai_processing) ai_handler (
            register "AI" ai_handler (
              register (type_value JobType.synchronization) sync_handler (
                register "SYNC" sync_handler (
                  register (type_value JobType.data_processing) data_processing_handler (
                    register (type_value JobType.reports) report_handler
                      (register "REPORT" report_handler []))))))))))
