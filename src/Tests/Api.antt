-- ===== src/Tests/Api.antt =====
-- The theorems about requests of the API, on the scenario.
use mt_jobs.Base.{String, some, none, List, [], ◌∷◌, ◌≡◌, ◌≤◌, ◌↔◌, refl, inl, count, arith}
use mt_jobs.Models.Json.{Json, Fields, end, field, get_field}
use mt_jobs.Models.Job.{Job, JobType, type_value}
use mt_jobs.Domain.Exceptions.{ok}
use mt_jobs.Store.Db.{find_job, find_tenant}
use mt_jobs.Services.Outbox.{World}
use mt_jobs.Serializers.{Validated, TenantChanges, set_field}
use mt_jobs.Serializers.Spelling.{Spells}
use mt_jobs.Urls.{View, resolve, urlpatterns}
use mt_jobs.Urls.Paths.{Endpoint, url, target, resolve_iff}
use mt_jobs.Capacity.Balance.{occupies}
use mt_jobs.Lifecycle.Rows.{SameIdentity}
use mt_jobs.System.Steps.{after}
use mt_jobs.Api.{Method, Body, post_job, request, update_tenant, changed_tenant}
use mt_jobs.Api.Submits.{with_type, to_internal_value-Spells, post_job-Spells}
use mt_jobs.Api.Retries.{post_job-again}
use mt_jobs.Api.Effects.{Effect, Reads, request-Effect}
use mt_jobs.Api.Tenants.{Runs, jobs-le-edited_limit}
use mt_jobs.Tests.Scenario.{run_all, acme, w4, w5, to_w4, w4_to_w5, job, job_runs}
use mt_jobs.Tests.Framework.{ascii, ascii-IsUnicode, unary, unary-reads, unary-only, context}

abbrev cancel_path : List String
cancel_path = "jobs" ∷ "ii" ∷ "cancel" ∷ "" ∷ []

resolve_iff_example :
    (resolve unary urlpatterns cancel_path ≡ some (View.job_cancel, 2 ∷ []))
    ↔ ((e : Endpoint) × (cancel_path ≡ url unary e) × (target e ≡ (View.job_cancel, 2 ∷ [])))
resolve_iff_example = resolve_iff unary unary-reads unary-only cancel_path (View.job_cancel, 2 ∷ [])

abbrev reports_padded : Spells ascii JobType.reports " reports "
reports_padded = record {
  before = " " ∷ [];
  word = "r" ∷ "e" ∷ "p" ∷ "o" ∷ "r" ∷ "t" ∷ "s" ∷ [];
  behind = " " ∷ [];
  is_text = refl;
  before_blank = (refl, tt);
  behind_blank = (refl, tt);
  spelled = (inl refl, (inl refl, (inl refl, (inl refl, (inl refl, (inl refl, (inl refl, tt)))))));
}

abbrev reports_mixed : Spells ascii JobType.reports "RePorts"
reports_mixed = record {
  before = [];
  word = "R" ∷ "e" ∷ "P" ∷ "o" ∷ "r" ∷ "t" ∷ "s" ∷ [];
  behind = [];
  is_text = refl;
  before_blank = tt;
  behind_blank = tt;
  spelled = (inl refl, (inl refl, (inl refl, (inl refl, (inl refl, (inl refl, (inl refl, tt)))))));
}

-- A body, and one that gives a column which `submit_job` ignores.
abbrev body : Fields
body = field "job_type" (Json.str "reports") (field "tenant" (Json.num 7) end)

abbrev body_with_status : Json
body_with_status = Json.obj (field "status" (Json.str "FAILED_FINAL") body)

post_job-Spells_example :
    post_job context (with_type " reports " body) ≡ post_job context (with_type "RePorts" body)
post_job-Spells_example =
    post_job-Spells context JobType.reports " reports " "RePorts" body ascii-IsUnicode
      reports_padded reports_mixed

abbrev report : Validated
report = record {
  tenant = 7;
  job_type = "REPORTS";
  priority = none;
  payload = none;
  available_at = none;
  others = end;
}

post_job-again_example :
    (y : Job) × (find_job 0 w5.db ≡ some y)
    × SameIdentity job y
    × (post_job context (with_type " reports " body) w5.db
        ≡ (ok (record { status = 200; body = Body.job y }), w5.db))
unfolding set_field get_field type_value
post_job-again_example =
    post_job-again 0 job "first" to_w4 job_runs refl w4_to_w5 context (with_type " reports " body)
      report refl refl
      (to_internal_value-Spells context.framework JobType.reports " reports " body ascii-IsUnicode
        reports_padded)
      refl

request-Effect_example :
    Effect w4
      (resolve unary urlpatterns ("jobs" ∷ "" ∷ []))
      (request context Method.get ("jobs" ∷ "" ∷ []) Json.null w4.db).1
    × Reads Method.get (request context Method.get ("jobs" ∷ "" ∷ []) Json.null w4.db) w4.db
request-Effect_example = request-Effect context Method.get ("jobs" ∷ "" ∷ []) Json.null w4

-- The limit is raised while the job runs.
abbrev raised : TenantChanges
raised = record { name = none; is_active = none; max_concurrent_jobs = some 3 }

abbrev edited : World
edited = after (update_tenant 125 (some raised) (find_tenant 7 w4.db)) w4

jobs-le-edited_limit_example : count (occupies 7) edited.db.jobs ≤ 3
unfolding run_all update_tenant
jobs-le-edited_limit_example =
    jobs-le-edited_limit {w = edited} 7 (changed_tenant 125 raised acme)
      (Runs.edits 125 7 raised (Runs.steps Runs.starts to_w4) (λ n e. ground (arith, e))) refl
