-- ===== src/Api.antt =====
-- The requests of jobs/views.py and tenants/views.py: the views with their serializers and the generic
-- views of the REST framework, behind the routes of config/urls.py. An exception that a view lets
-- out is the answer 500. HEAD, OPTIONS and the text of the answers are not modelled.
pub mod Reads
pub mod Effects
pub mod Submits
pub mod Outcomes
pub mod Retries
pub mod Tenants
use mt_jobs.Base.{
  ℕ, String, Bool, true, false, Option, none, some, List, [], ◌∷◌, ◌++◌, if◌then◌else◌, map,
}
use mt_jobs.Base.Table.{save}
use mt_jobs.Models.Json.{Json, Fields, get_field, truthy}
use mt_jobs.Models.Job.{Job}
use mt_jobs.Models.Attempt.{JobAttempt}
use mt_jobs.Models.DeadLetter.{DeadLetterJob}
use mt_jobs.Models.Tenant.{Tenant}
use mt_jobs.Store.Exec.{Exec, pure, lift, gets, modify, ◌>>=◌, ◌>>◌}
use mt_jobs.Store.Db.{Db, uuid4, find_job, find_tenant, dead_letter_pk, tenant_pk}
use mt_jobs.Base.Table.{find}
use mt_jobs.Services.Submission.{Submission}
use mt_jobs.Views.{Request, create, cancel, replay, attempts_of}
use mt_jobs.Serializers.{
  Framework, Validated, TenantChanges, to_internal_value, validated_tenant, call_arguments,
}
use mt_jobs.Urls.{Converter, View, resolve, urlpatterns}

pub data Method : Type 0 where
  get post put patch delete : Method

-- What an answer holds.
pub data Body : Type 0 where
  jobs : List Job → Body
  job : Job → Body
  attempts : List JobAttempt → Body
  dead_letters : List DeadLetterJob → Body
  dead_letter : DeadLetterJob → Body
  tenants : List Tenant → Body
  tenant : Tenant → Body
  detail : Body  -- the error message of the framework

pub record Response : Type 0 where
  pub status : ℕ
  pub body : Body

abbrev pub respond : ℕ → Body → Exec Db Response
respond status body = pure (record { status = status; body = body })

-- `ValidationError`, `Http404` and `MethodNotAllowed`, which the framework turns into answers.
abbrev pub invalid : Exec Db Response
invalid = respond 400 Body.detail

abbrev pub not_found : Exec Db Response
not_found = respond 404 Body.detail

abbrev pub not_allowed : Exec Db Response
not_allowed = respond 405 Body.detail

-- What a request finds outside the database: the framework, the clock, the text of a fresh UUID,
-- the conversion of a value to the text of a column, the routes' converter, and the two headers.
pub record Context : Type 0 where
  pub framework : Framework
  pub converter : Converter
  pub to_text : Json → String
  pub now : ℕ
  pub generated : String
  pub idempotency_key_header : Option String
  pub x_idempotency_key_header : Option String

abbrev text_of : (Json → String) → Option Json → Option String
text_of to_text none = none
text_of to_text (some v) = if truthy v then some (to_text v) else none

-- `request.data.get("idempotency_key")`
unfoldable pub key_field : (Json → String) → Json → Option String
key_field to_text (Json.obj fs) = text_of to_text (get_field "idempotency_key" fs)
key_field to_text v = none

abbrev pub request_of : Context → Json → Request
request_of c body = record {
  idempotency_key_header = c.idempotency_key_header;
  x_idempotency_key_header = c.x_idempotency_key_header;
  idempotency_key_field = key_field c.to_text body;
}

-- `JobListCreateView.create` from the serializer on.
unfoldable pub create_validated : Context → Json → Option Validated → Exec Db Response
unfolding key_field call_arguments
create_validated c body none = invalid
create_validated c body (some v) = do
  r ← create c.now c.generated (request_of c body) (call_arguments v)
  respond r.1 (Body.job r.0)

unfoldable pub post_job : Context → Json → Exec Db Response
unfolding create_validated to_internal_value
post_job c body = create_validated c body (to_internal_value c.framework body)

-- `RetrieveAPIView.get`
abbrev pub retrieved : {A : Type 0} → (A → Body) → Option A → Exec Db Response
retrieved show none = not_found
retrieved show (some a) = respond 200 (show a)

abbrev new_tenant : ℕ → ℕ → TenantChanges → Tenant
new_tenant id now t = record {
  id = id;
  name = elim t.name [ none ↦ "" | some name ↦ name ];
  is_active = elim t.is_active [ none ↦ true | some b ↦ b ];
  max_concurrent_jobs = elim t.max_concurrent_jobs [ none ↦ 2 | some n ↦ n ];
  created_at = now;
  updated_at = now;
}

abbrev pub changed_tenant : ℕ → TenantChanges → Tenant → Tenant
changed_tenant now t old = record old {
  name = elim t.name [ none ↦ old.name | some name ↦ name ];
  is_active = elim t.is_active [ none ↦ old.is_active | some b ↦ b ];
  max_concurrent_jobs = elim t.max_concurrent_jobs [ none ↦ old.max_concurrent_jobs | some n ↦ n ];
  updated_at = now;
}

-- `TenantListCreateView.post`
unfoldable pub create_tenant : ℕ → Option TenantChanges → Exec Db Response
create_tenant now none = invalid
create_tenant now (some t) = do
  id ← uuid4
  modify (λ d. record d { tenants = d.tenants ++ new_tenant id now t ∷ [] })
  respond 201 (Body.tenant (new_tenant id now t))

abbrev pub save_tenant : Tenant → Exec Db (Unit {0})
save_tenant t = modify (λ d. record d { tenants = save tenant_pk t d.tenants })

abbrev changed : ℕ → Tenant → Option TenantChanges → Exec Db Response
changed now old none = invalid
changed now old (some t) =
    save_tenant (changed_tenant now t old) >> respond 200 (Body.tenant (changed_tenant now t old))

-- `TenantDetailView.put` and `patch`: the row is looked up before the body is checked.
unfoldable pub update_tenant : ℕ → Option TenantChanges → Option Tenant → Exec Db Response
update_tenant now t none = not_found
update_tenant now t (some old) = changed now old t

-- The methods of each view, with the id of its path.
unfoldable pub call : Context → View → ℕ → Method → Json → Exec Db Response
unfolding post_job create_tenant update_tenant validated_tenant
call c View.job_list_create i Method.get body = do
  rows ← gets (λ (d : Db). d.jobs)
  respond 200 (Body.jobs rows)
call c View.job_list_create i Method.post body = post_job c body
call c View.job_detail i Method.get body = do row ← gets (find_job i); retrieved Body.job row
call c View.job_attempt_list i Method.get body = do
  rows ← gets (attempts_of i)
  respond 200 (Body.attempts rows)
call c View.job_cancel i Method.post body = do r ← cancel c.now i; respond r.1 (Body.job r.0)
call c View.dead_letter_list i Method.get body = do
  rows ← gets (λ (d : Db). d.dead_letters)
  respond 200 (Body.dead_letters rows)
call c View.dead_letter_detail i Method.get body = do
  row ← gets (λ (d : Db). find dead_letter_pk i d.dead_letters)
  retrieved Body.dead_letter row
call c View.dead_letter_replay i Method.post body = do
  r ← replay c.now c.generated i
  respond r.1 (Body.job r.0)
call c View.tenant_list_create i Method.get body = do
  rows ← gets (λ (d : Db). d.tenants)
  respond 200 (Body.tenants rows)
call c View.tenant_list_create i Method.post body =
    create_tenant c.now (validated_tenant c.framework false body)
call c View.tenant_detail i Method.get body = do
  row ← gets (find_tenant i)
  retrieved Body.tenant row
call c View.tenant_detail i Method.put body = do
  row ← gets (find_tenant i)
  update_tenant c.now (validated_tenant c.framework false body) row
call c View.tenant_detail i Method.patch body = do
  row ← gets (find_tenant i)
  update_tenant c.now (validated_tenant c.framework true body) row
call c view i method body = not_allowed

abbrev id_of : List ℕ → ℕ
id_of [] = 0
id_of (i ∷ is) = i

-- A request: its method, the parts of its path, and its parsed body.
unfoldable pub request : Context → Method → List String → Json → Exec Db Response
unfolding resolve urlpatterns call
request c method path body = elim (resolve c.converter urlpatterns path) [
  | none ↦ not_found
  | some (view, ids) ↦ call c view (id_of ids) method body
]
