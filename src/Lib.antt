-- ===== src/Lib.antt =====
-- A model of the multi-tenant job orchestrator: a Django application whose services move jobs between
-- statuses in a database, and whose Celery tasks call the services.
--
-- The parts, and how they interact.
--   A client submits a job (jobs/services/submission.py, through jobs/views.py), and the job waits. The
--   scheduler state of a tenant caches whether it has ready work (jobs/services/scheduler_state.py). The
--   task `dispatch_jobs` calls the dispatcher for each tenant with ready work: below the limit of the
--   tenant it takes the first ready job whose overlap lock is free, reserves a slot, queues the job and
--   writes an outbox event, in one transaction. `publish_outbox` sends the events to the broker. A worker
--   claims a queued job, runs its handler and completes or fails the job, which frees the slot; a failure
--   is retried after a delay or filed in the dead letter queue. `process_retries` sends jobs whose delay
--   has elapsed back to wait, `reconcile_zombies` gives up attempts whose lease has expired and queued
--   jobs that nobody claimed. A client may cancel a job and replay a dead letter.
--
-- The files, by the code that they model.
--   Base         names, Boolean tests, lists, tables with a primary key, and sorting by insertion
--   Models       jobs/models and tenants/models.py: a record for each table, a data type for each choice
--   Domain       jobs/domain, and `dict.get` on a payload
--   Store        the database: Exec is code that reads and writes a state and may raise, with
--                `transaction.atomic` and `try`; Db holds the tables, and `get`, `save` and `create`
--                with the unique constraints; Columns says what the columns of a new job hold
--   Handlers     jobs/handlers
--   Services     jobs/services, a file for each file there
--   Tasks        jobs/tasks.py
--   Views        the calls of the services in jobs/views.py
--   Serializers  jobs/serializers.py and tenants/serializers.py: the normalisation of a body; Spelling says
--                which texts name one job type
--   Urls         config/urls.py, jobs/urls.py and tenants/urls.py; Paths has the endpoints that they serve
--   Api          requests: the views with their serializers behind the routes, of jobs/views.py and
--                tenants/views.py; children for what a request changes, how a submission ends, a
--                submission that is sent again, and tenants whose limit is edited
--   Capacity     the slots of a tenant: the invariant IsBalanced ties counters, reservations, running
--                attempts and statuses together; a file for each service that keeps it
--   Lifecycle    the life of one row: the moves that the services make, and what histories of moves keep.
--                Two parameters say which moves occur: `ends`, for the ends of an attempt, and `starts`,
--                for the dispatcher
--   Idempotency  keys: their uniqueness, a key that is used again, and one that is new
--   Scheduling   the choice of the dispatcher and that it makes one, the cache of the scheduler, leases, the
--                delay of a retry and its end, and a payload that stops the dispatcher
--   Workers      a run from the claim to the end, redelivery, failures, the sending of events and the
--                messages that the jobs are owed, and the workers that are given up
--   Exclusion    the overlap locks of the running system, and the jobs that hold them
--   Clients      cancelling a job and replaying a dead letter
--   System       the running system: a step is one service call with the inputs that the environment
--                chooses, and Reach is a sequence of steps; Frame is for tables that few services write
--   Tests        runs of the model on concrete data
--
-- How the state corresponds to the code.
--   The columns keep their names. Ids are numbers from a counter, in place of `uuid.uuid4`, which does not
--   repeat either; an instant is a number of microseconds. A call reads the clock once: it is the argument
--   `now`. A service that is decorated by `transaction.atomic` and locks its rows with `select_for_update`
--   is one step, and a batch of such calls is a sequence of steps; `locked` says which rows other
--   transactions hold, where the code skips them. A query without order returns rows in order of
--   insertion, which also breaks the ties of an ORDER BY. The text of a generated key (`generated`), the
--   conversion of a value to the text of a column (`to_text`), the answer of the broker and the handlers
--   are arguments. Loops run over lists, by structural recursion, so that no fuel is needed: the limits 10
--   and 100 of the batches are those of the code.
--
--   A path is the list of its parts. The REST framework and Django are arguments of the API where it rests
--   on them: the checks of the fields of a body, the tables of Unicode, a character at a time, and the
--   converter `uuid`. Routes are tried in order, as Django documents, and the generic views look a row up,
--   check the body and answer with the documented status.
--
-- What is not modelled.
--   What the columns hold beside those of a new job: the widths of their texts, as of a lock key,
--   and NUL characters in the results and texts that are written later. The driver refuses a key
--   with a NUL character already in the lookup of submit_job, the model at the insertion: both
--   raise, and nothing is written. A text with half of a surrogate pair, foreign keys, numbers in
--   JSON that are no naturals, and how long a handler sleeps. The text of an answer, HEAD and
--   OPTIONS, the serializers that only print rows, and the middleware, which redirects a path
--   without its last slash. Settings, the schedule of Celery and migrations: declarations that a
--   framework interprets. Upper case that depends on the letters around, as of a final sigma.
--   Celery's redelivery of a message is a further call of `execute_job`. In the steps of
--   System/Steps a worker completes or fails an attempt only while it still runs, which
--   complete_job, fail_job and fail_attempt do not check: every result on reached states has this
--   condition, and System/Late shows what a worker that comes back later does. Api/Tenants has
--   edits of a tenant beside the steps, but no new tenants.
pub mod Base
pub mod Models
pub mod Domain
pub mod Store
pub mod Handlers
pub mod Services
pub mod Tasks
pub mod Views
pub mod Serializers
pub mod Urls
pub mod Api
pub mod Capacity
pub mod Lifecycle
pub mod System
pub mod Idempotency
pub mod Scheduling
pub mod Workers
pub mod Clients
pub mod Exclusion
pub mod Tests
