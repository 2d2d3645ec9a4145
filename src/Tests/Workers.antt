-- ===== src/Tests/Workers.antt =====
-- The theorems about a run of a worker, on the scenario.
use mt_jobs.Base.{some, ◌≤◌, count, arith, ◌≡◌, refl}
use mt_jobs.Models.Job.{Job, type_value}
use mt_jobs.Domain.Exceptions.{ok}
use mt_jobs.Handlers.Registry.{register, lookup, get_handler}
use mt_jobs.Handlers.Simulated.{registry, report_handler, sleep}
use mt_jobs.Services.Dispatcher.{queued_job}
use mt_jobs.Services.Execution.{execute}
use mt_jobs.Store.Db.{find_job}
use mt_jobs.Tasks.{publish_outbox}
use mt_jobs.Workers.Delivery.{waits, owed}
use mt_jobs.Workers.Messages.{messages}
use mt_jobs.Workers.Drains.{publish_outbox-Drains}
use mt_jobs.Workers.Runs.{Runs}
use mt_jobs.Workers.Completion.{Completes, execute-Completes, execute_again, execute_job-Runs}
use mt_jobs.Tests.Scenario.{run_all, up, w3, to_w3, worker, waiting_job}

abbrev queued : Job
queued = queued_job 110 waiting_job

execute-Completes_example : Completes worker 0 queued w3.db
unfolding run_all registry register lookup get_handler report_handler sleep type_value
execute-Completes_example = execute-Completes worker 0 queued to_w3 refl refl refl

execute_again_example :
    let d = (execute worker 0 w3.db).1 in
    execute (record worker { hostname = "other" }) 0 d ≡ (ok tt, d)
unfolding run_all registry register lookup get_handler report_handler sleep type_value
execute_again_example =
    execute_again worker 0 queued to_w3 refl refl refl (record worker { hostname = "other" })

execute_job-Runs_example : Runs worker 0 queued w3
unfolding run_all registry register lookup get_handler report_handler sleep type_value
execute_job-Runs_example = execute_job-Runs worker 0 queued to_w3 refl refl refl

publish_outbox-Drains_example :
    ((publish_outbox up 115 w3).0 ≡ ok tt)
    × (find_job 0 (publish_outbox up 115 w3).1.db ≡ some queued)
    × (count (waits 0) (publish_outbox up 115 w3).1.db.outbox ≡ 0)
    × (owed queued ≤ messages 0 (publish_outbox up 115 w3).1.queue)
unfolding run_all
publish_outbox-Drains_example =
    publish_outbox-Drains up 115 0 queued (λ k. refl) to_w3 refl ((λ w. omega arith), tt)
      (ground arith)
