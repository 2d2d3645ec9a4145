-- ===== src/Store/Db.antt =====
-- The tables, and the ORM calls on them: `get`, `save` and `create` by primary key, with the unique
-- constraints that the models declare. Rows stand in order of insertion. `next_uuid` numbers the
-- rows in place of `uuid.uuid4`, so that ids do not repeat.
use mt_jobs.Base.{
  ℕ, suc, String, Bool, false, Option, none, some, List, [], ◌∷◌, ◌++◌, ◌==◌, ◌&&◌, ◌||◌, str_eq,
  if◌then◌else◌, any,
}
use mt_jobs.Base.Table.{find, save}
use mt_jobs.Models.Job.{Job}
use mt_jobs.Models.Attempt.{JobAttempt}
use mt_jobs.Models.Reservation.{JobExecutionReservation}
use mt_jobs.Models.Overlap.{JobOverlapLock, locks_conflict}
use mt_jobs.Models.Outbox.{JobOutbox}
use mt_jobs.Models.DeadLetter.{DeadLetterJob}
use mt_jobs.Models.SchedulerState.{TenantSchedulerState}
use mt_jobs.Models.Tenant.{Tenant}
use mt_jobs.Domain.Exceptions.{Exception, Result, ok, err}
use mt_jobs.Store.Exec.{Exec, modify}
use mt_jobs.Store.Columns.{is_storable}

pub record Db : Type 0 where
  pub tenants : List Tenant
  pub jobs : List Job
  pub attempts : List JobAttempt
  pub reservations : List JobExecutionReservation
  pub locks : List JobOverlapLock
  pub outbox : List JobOutbox
  pub dead_letters : List DeadLetterJob
  pub scheduler_states : List TenantSchedulerState
  pub next_uuid : ℕ

abbrev pub job_pk : Job → ℕ
job_pk j = j.id

abbrev pub attempt_pk : JobAttempt → ℕ
attempt_pk a = a.id

abbrev pub outbox_pk : JobOutbox → ℕ
outbox_pk e = e.id

abbrev pub dead_letter_pk : DeadLetterJob → ℕ
dead_letter_pk l = l.id

abbrev pub state_pk : TenantSchedulerState → ℕ
state_pk s = s.tenant

abbrev pub tenant_pk : Tenant → ℕ
tenant_pk t = t.id

abbrev pub find_job : ℕ → Db → Option Job
find_job i d = find job_pk i d.jobs

abbrev pub find_attempt : ℕ → Db → Option JobAttempt
find_attempt i d = find attempt_pk i d.attempts

abbrev pub find_state : ℕ → Db → Option TenantSchedulerState
find_state i d = find state_pk i d.scheduler_states

abbrev pub find_tenant : ℕ → Db → Option Tenant
find_tenant i d = find tenant_pk i d.tenants

-- `objects.get(…)`
abbrev pub found : {A : Type 0} → String → Option A → Result A
found model none = err (Exception.does_not_exist model)
found model (some a) = ok a

abbrev pub get_job : ℕ → Exec Db Job
get_job i d = (found "Job" (find_job i d), d)

abbrev pub get_attempt : ℕ → Exec Db JobAttempt
get_attempt i d = (found "JobAttempt" (find_attempt i d), d)

abbrev pub get_state : ℕ → Exec Db TenantSchedulerState
get_state i d = (found "TenantSchedulerState" (find_state i d), d)

abbrev pub get_tenant : ℕ → Exec Db Tenant
get_tenant i d = (found "Tenant" (find_tenant i d), d)

abbrev pub get_outbox : ℕ → Exec Db JobOutbox
get_outbox i d = (found "JobOutbox" (find outbox_pk i d.outbox), d)

abbrev pub get_dead_letter : ℕ → Exec Db DeadLetterJob
get_dead_letter i d = (found "DeadLetterJob" (find dead_letter_pk i d.dead_letters), d)

abbrev pub save_job : Job → Exec Db (Unit {0})
save_job j = modify (λ d. record d { jobs = save job_pk j d.jobs })

abbrev pub save_attempt : JobAttempt → Exec Db (Unit {0})
save_attempt a = modify (λ d. record d { attempts = save attempt_pk a d.attempts })

abbrev pub save_state : TenantSchedulerState → Exec Db (Unit {0})
save_state s = modify (λ d. record d { scheduler_states = save state_pk s d.scheduler_states })

abbrev pub save_outbox : JobOutbox → Exec Db (Unit {0})
save_outbox e = modify (λ d. record d { outbox = save outbox_pk e d.outbox })

abbrev pub save_dead_letter : DeadLetterJob → Exec Db (Unit {0})
save_dead_letter l = modify (λ d. record d { dead_letters = save dead_letter_pk l d.dead_letters })

abbrev pub uuid4 : Exec Db ℕ
uuid4 d = (ok d.next_uuid, record d { next_uuid = suc d.next_uuid })

abbrev pub same_key : Option String → Option String → Bool
same_key (some a) (some b) = str_eq a b
same_key _ _ = false

-- The primary key and `uq_job_tenant_idempotency_key`, whose index leaves NULL keys out.
abbrev pub jobs_conflict : Job → Job → Bool
jobs_conflict a b =
    b.id == a.id || (b.tenant == a.tenant && same_key b.idempotency_key a.idempotency_key)

abbrev pub not_storable : Exception
not_storable = Exception.data_error "value out of range for a column of jobs"

-- The values are converted before the constraints are looked at. The text of the error is PostgreSQL's
-- own, and no code reads it.
abbrev pub create_job : Job → Exec Db Job
create_job j d =
    if is_storable j
    then (if any (jobs_conflict j) d.jobs
        then (err (Exception.integrity_error "uq_job_tenant_idempotency_key"), d)
        else (ok j, record d { jobs = d.jobs ++ j ∷ [] }))
    else (err not_storable, d)

-- The primary key and `uq_job_attempt_number`.
abbrev pub attempts_conflict : JobAttempt → JobAttempt → Bool
attempts_conflict a b = b.id == a.id || (b.job == a.job && b.attempt_number == a.attempt_number)

abbrev pub create_attempt : JobAttempt → Exec Db JobAttempt
create_attempt a d =
    if any (attempts_conflict a) d.attempts
    then (err (Exception.integrity_error "uq_job_attempt_number"), d)
    else (ok a, record d { attempts = d.attempts ++ a ∷ [] })

-- The job is a one-to-one link.
abbrev pub create_reservation : JobExecutionReservation → Exec Db JobExecutionReservation
create_reservation r d =
    if any (λ x. x.job == r.job) d.reservations
    then (err (Exception.integrity_error "job_execution_reservations_job_id_key"), d)
    else (ok r, record d { reservations = d.reservations ++ r ∷ [] })

abbrev pub create_lock : JobOverlapLock → Exec Db JobOverlapLock
create_lock l d =
    if any (locks_conflict l) d.locks
    then (err (Exception.integrity_error "uq_overlap_resource"), d)
    else (ok l, record d { locks = d.locks ++ l ∷ [] })

abbrev pub create_outbox : JobOutbox → Exec Db JobOutbox
create_outbox e d = (ok e, record d { outbox = d.outbox ++ e ∷ [] })

abbrev pub create_state : TenantSchedulerState → Exec Db TenantSchedulerState
create_state s d = (ok s, record d { scheduler_states = d.scheduler_states ++ s ∷ [] })

-- Whether an entry is about a job; the link is one-to-one.
abbrev pub is_dead : ℕ → DeadLetterJob → Bool
is_dead i l = l.job == i

-- An entry that is there stays.
unfoldable pub with_letter : DeadLetterJob → List DeadLetterJob → List DeadLetterJob
with_letter l letters = if any (is_dead l.job) letters then letters else letters ++ l ∷ []

-- `DeadLetterJob.objects.get_or_create(job=job, defaults=…)`
abbrev pub get_or_create_dead_letter : DeadLetterJob → Exec Db (Unit {0})
get_or_create_dead_letter l = modify (λ d. record d { dead_letters = with_letter l d.dead_letters })
