-- ===== src/Api/Retries.antt =====
-- A client that sends its `POST /jobs/` again.
use mt_jobs.Base.{ℕ, String, false, some, List, ◌≡◌, refl, str_eq, arith}
use mt_jobs.Models.Json.{Json}
use mt_jobs.Models.Job.{Job}
use mt_jobs.Models.Tenant.{Tenant}
use mt_jobs.Domain.Exceptions.{ok}
use mt_jobs.Store.Db.{find_job}
use mt_jobs.Services.Outbox.{World}
use mt_jobs.Services.Submission.{key_or_generated}
use mt_jobs.Serializers.{Validated, call_arguments, to_internal_value}
use mt_jobs.Views.{create, with_key, request_key, or_text}
use mt_jobs.Lifecycle.Rows.{SameIdentity}
use mt_jobs.System.Steps.{Reach}
use mt_jobs.System.Limit.{start}
use mt_jobs.Idempotency.Resubmit.{resubmit}
use mt_jobs.Api.{Body, Context, create_validated, post_job, request_of}

-- A header that is not empty is the key of the submission.
key-header :
    (c : Context) (body : Json) (k : String)
    → c.idempotency_key_header ≡ some k
    → str_eq k "" ≡ false
    → key_or_generated c.generated (request_key (request_of c body)) ≡ k
unfolding request_key key_or_generated or_text
key-header c body k header full = ground (arith, header, full)

-- Once a state reached from tenants without jobs has a job with a key, a valid `POST /jobs/` for
-- its tenant in any later state, reached by steps in which no attempt is completed or failed after
-- it has ended, with that key in the header Idempotency-Key and not empty, answers 200 with that
-- job as it then stands and writes nothing, whatever else the body asks for.
pub post_job-again :
    {tenants : List Tenant} {w v : World} (i : ℕ) (x : Job) (k : String)
    → Reach (start tenants) w
    → find_job i w.db ≡ some x
    → x.idempotency_key ≡ some k
    → Reach w v
    → (c : Context) (body : Json) (b : Validated) → c.idempotency_key_header ≡ some k
    → str_eq k "" ≡ false
    → to_internal_value c.framework body ≡ some b
    → b.tenant ≡ x.tenant
    → (y : Job) × (find_job i v.db ≡ some y)
      × SameIdentity x y
      × (post_job c body v.db ≡ (ok (record { status = 200; body = Body.job y }), v.db))
unfolding post_job create_validated create call_arguments
post_job-again i x k r f e rv c body b header full valid same =
    let (y, g, id, run) =
      resubmit i x k r f e rv c.now c.generated (with_key (request_of c body) (call_arguments b))
        same (key-header c body k header full) in
    (y, g, id, rw (valid, run) refl)
