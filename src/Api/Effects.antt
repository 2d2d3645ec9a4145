-- ===== src/Api/Effects.antt =====
-- What a request changes: the steps of the running system (System/Steps), or the table of tenants.
use mt_jobs.Base.{
  ℕ, String, Bool, true, false, Option, none, some, List, [], ◌∷◌, ◌≡◌, ◌⊎◌, refl, Option-cases,
  inl, inr, sym, ap, subst, arith,
}
use mt_jobs.Models.Json.{Json}
use mt_jobs.Domain.Exceptions.{Result}
use mt_jobs.Store.Exec.{Exec, ◌>>=◌, >>=-keeps}
use mt_jobs.Store.Db.{Db, find_tenant}
use mt_jobs.Models.Tenant.{Tenant}
use mt_jobs.Models.Job.{Job}
use mt_jobs.Services.Outbox.{World}
use mt_jobs.Views.{create, cancel, replay}
use mt_jobs.Serializers.{
  Validated, TenantChanges, to_internal_value, validated_tenant, call_arguments,
}
use mt_jobs.Urls.{View, resolve, urlpatterns}
use mt_jobs.System.Steps.{Reach, here, after}
use mt_jobs.System.Batches.{create-Reach, cancel-Reach, replay-Reach}
use mt_jobs.Api.{
  Method, Response, Context, Body, call, request, create_validated, post_job, request_of, respond,
  create_tenant, update_tenant,
}
use mt_jobs.Api.Reads.{Answers, call-Answers, get-Answers}

-- All tables but that of the tenants are as they were.
pub record SameRows (d e : Db) : Type 0 where
  pub jobs : e.jobs ≡ d.jobs
  pub attempts : e.attempts ≡ d.attempts
  pub reservations : e.reservations ≡ d.reservations
  pub locks : e.locks ≡ d.locks
  pub outbox : e.outbox ≡ d.outbox
  pub dead_letters : e.dead_letters ≡ d.dead_letters
  pub scheduler_states : e.scheduler_states ≡ d.scheduler_states

-- The views that edit tenants.
abbrev pub edits_tenants : Option (View × List ℕ) → Bool
edits_tenants (some (View.tenant_list_create, ids)) = true
edits_tenants (some (View.tenant_detail, ids)) = true
edits_tenants _ = false

abbrev pub Effect : World → Option (View × List ℕ) → Db → Type 0
Effect w target d =
    Reach w (record w { db = d }) ⊎ ((edits_tenants target ≡ true) × SameRows w.db d)

-- A view's result becomes an answer.
responds-Reach :
    (w : World) (m : Exec Db (Job × ℕ))
    → Reach w (after m w)
    → Reach w (after (m >>= λ r. respond r.1 (Body.job r.0)) w)
responds-Reach w m r = >>=-keeps (λ d. Reach w (record w { db = d })) m _ w.db r (λ a e p. p)

create_validated-Reach :
    (c : Context) (body : Json) (v : Option Validated) (w : World)
    → Reach w (after (create_validated c body v) w)
unfolding create_validated
create_validated-Reach c body none w = here
create_validated-Reach c body (some v) w =
    responds-Reach w (create c.now c.generated (request_of c body) (call_arguments v))
      (create-Reach c.now c.generated (request_of c body) (call_arguments v) w)

create_tenant-SameRows :
    (now : ℕ) (t : Option TenantChanges) (d : Db) → SameRows d (create_tenant now t d).1
unfolding create_tenant
create_tenant-SameRows now none d = ground arith
create_tenant-SameRows now (some t) d = ground arith

update_tenant-SameRows :
    (now : ℕ) (t : Option TenantChanges) (old : Option Tenant) (d : Db)
    → SameRows d (update_tenant now t old d).1
unfolding update_tenant
update_tenant-SameRows now t none d = ground arith
update_tenant-SameRows now none (some old) d = ground arith
update_tenant-SameRows now (some t) (some old) d = ground arith

call-Effect :
    (c : Context) (view : View) (ids : List ℕ) (i : ℕ) (method : Method) (body : Json) (w : World)
    → Effect w (some (view, ids)) (call c view i method body w.db).1
unfolding call post_job
call-Effect c view ids i Method.get body w =
    let (r, e) = call-Answers c view i body w.db in
    inl (
      subst (λ d. Reach w (record w { db = d })) (sym (ap (λ (x : Result Response × Db). x.1) e))
        here)
call-Effect c View.job_list_create ids i Method.post body w =
    inl (create_validated-Reach c body (to_internal_value c.framework body) w)
call-Effect c View.job_cancel ids i Method.post body w =
    inl (responds-Reach w (cancel c.now i) (cancel-Reach c.now i w))
call-Effect c View.dead_letter_replay ids i Method.post body w =
    inl (responds-Reach w (replay c.now c.generated i) (replay-Reach c.now c.generated i w))
call-Effect c View.tenant_list_create ids i Method.post body w =
    inr (refl, create_tenant-SameRows c.now (validated_tenant c.framework false body) w.db)
call-Effect c View.tenant_detail ids i Method.put body w = inr (
  refl,
  update_tenant-SameRows c.now (validated_tenant c.framework false body) (find_tenant i w.db) w.db,
)
call-Effect c View.tenant_detail ids i Method.patch body w = inr (
  refl,
  update_tenant-SameRows c.now (validated_tenant c.framework true body) (find_tenant i w.db) w.db,
)
call-Effect c View.job_list_create ids i Method.delete body w = inl here
call-Effect c view ids i method body w = inl here

request-Leads :
    (c : Context) (method : Method) (path : List String) (body : Json) (w : World)
    → Effect w (resolve c.converter urlpatterns path) (request c method path body w.db).1
unfolding request
request-Leads c method path body w = elim (Option-cases (resolve c.converter urlpatterns path)) [
  | inl e ↦ rw e (inl here)
  | inr ((view, []), e) ↦ rw e (call-Effect c view [] 0 method body w)
  | inr ((view, i ∷ is), e) ↦ rw e (call-Effect c view (i ∷ is) i method body w)
]

-- What is asked of GET alone: an answer, and nothing written.
abbrev pub Reads : Method → Result Response × Db → Db → Type 0
Reads Method.get x d = Answers x d
Reads method x d = Unit {0}

-- Whatever its method, path and body, a request leads to a state that a sequence of steps of the
-- services leads to, also where a view raises, or its path is one of the tenants and it leaves the
-- jobs, attempts, reservations, locks, events, dead letters and scheduler states as they are; and
-- a GET raises nothing and writes nothing.
pub request-Effect :
    (c : Context) (method : Method) (path : List String) (body : Json) (w : World)
    → Effect w (resolve c.converter urlpatterns path) (request c method path body w.db).1
      × Reads method (request c method path body w.db) w.db
request-Effect c Method.get path body w =
    (request-Leads c Method.get path body w, get-Answers c path body w.db)
request-Effect c Method.post path body w = (request-Leads c Method.post path body w, tt)
request-Effect c Method.put path body w = (request-Leads c Method.put path body w, tt)
request-Effect c Method.patch path body w = (request-Leads c Method.patch path body w, tt)
request-Effect c Method.delete path body w = (request-Leads c Method.delete path body w, tt)
