-- ===== src/Api/Outcomes.antt =====
-- How a `POST /jobs/` ends (jobs/views.py).
use mt_jobs.Base.{String, Bool, true, false, not, none, some, [], ◌∷◌, ◌++◌, ◌≡◌, ◌&&◌, leb}
use mt_jobs.Models.Json.{Json}
use mt_jobs.Models.Job.{Job, JobStatus}
use mt_jobs.Models.SchedulerState.{TenantSchedulerState}
use mt_jobs.Serializers.{Validated, call_arguments, priority_or_normal, to_internal_value}
use mt_jobs.Store.Columns.{key_fits, fits, json_has_nul}
use mt_jobs.Store.Db.{Db, not_storable, find_job, find_state}
use mt_jobs.Domain.Exceptions.{ok, err}
use mt_jobs.Views.{with_key, request_key}
use mt_jobs.Services.Submission.{
  Submission, submitted, find_duplicate, key_or_generated, payload_or_empty, or_now,
}
use mt_jobs.Capacity.Submit.{after_submit}
use mt_jobs.Scheduling.Refresh.{IsSummary}
use mt_jobs.Models.Tenant.{Tenant}
use mt_jobs.Api.{Context, Body, post_job, request_of}

-- The key of a submission: of the header, else of the body, else generated.
abbrev pub key_of : Context → Json → String
key_of c body = key_or_generated c.generated (request_key (request_of c body))

-- The row of a valid body: whatever further columns the body names, the job waits and has not run.
pub record IsNew (c : Context) (key : String) (v : Validated) (j : Job) : Type 0 where
  pub tenant : j.tenant ≡ v.tenant
  pub job_type : j.job_type ≡ v.job_type
  pub payload : j.payload ≡ payload_or_empty v.payload
  pub priority : j.priority ≡ priority_or_normal v.priority
  pub idempotency_key : j.idempotency_key ≡ some key
  pub available_at : j.available_at ≡ or_now c.now v.available_at
  pub status : j.status ≡ JobStatus.waiting
  pub attempt_count : j.attempt_count ≡ 0
  pub result : j.result ≡ none

-- Whether the columns hold the key and what a valid body asks for.
abbrev pub is_creatable : String → Validated → Bool
is_creatable key v =
    key_fits (some key)
    && (fits 50 v.job_type
        && (leb (priority_or_normal v.priority) 32767
            && not (json_has_nul (payload_or_empty v.payload))))

pub data Outcome (c : Context) (body : Json) (d : Db) : Type 0 where
  invalid :
      to_internal_value c.framework body ≡ none
      → post_job c body d ≡ (ok (record { status = 400; body = Body.detail }), d)
      → Outcome c body d
  repeated :
      (v : Validated) (y : Job)
      → to_internal_value c.framework body ≡ some v
      → find_duplicate v.tenant (key_of c body) d.jobs ≡ some y
      → post_job c body d ≡ (ok (record { status = 200; body = Body.job y }), d)
      → Outcome c body d
  created :
      (v : Validated) (j : Job) (s : TenantSchedulerState)
      → to_internal_value c.framework body ≡ some v
      → find_duplicate v.tenant (key_of c body) d.jobs ≡ none
      → is_creatable (key_of c body) v ≡ true
      → IsNew c (key_of c body) v j
      → find_job j.id d ≡ none
      → (post_job c body d).0 ≡ ok (record { status = 201; body = Body.job j })
      → find_job j.id (post_job c body d).1 ≡ some j
      → find_state v.tenant (post_job c body d).1 ≡ some s
      → IsSummary c.now v.tenant (d.jobs ++ j ∷ []) s
      → Outcome c body d
  refused :
      (v : Validated)
      → to_internal_value c.framework body ≡ some v
      → find_duplicate v.tenant (key_of c body) d.jobs ≡ none
      → is_creatable (key_of c body) v ≡ false
      → post_job c body d ≡ (err not_storable, d)
      → Outcome c body d

module _ (c : Context) (body : Json) (v : Validated) (d : Db)
    (valid : to_internal_value c.framework body ≡ some v) where
  abbrev submission : Submission
  submission = with_key (request_of c body) (call_arguments v)

  abbrev made : Job
  made = submitted d.next_uuid c.now submission (key_of c body)

  abbrev stored : Db
  stored = after_submit c.now c.generated submission d
