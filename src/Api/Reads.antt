-- ===== src/Api/Reads.antt =====
-- The methods of the API that only read.
use mt_jobs.Base.{ℕ, String, Option, none, some, List, [], ◌∷◌, ◌≡◌, refl, Option-cases, inl, inr}
use mt_jobs.Base.Table.{find}
use mt_jobs.Models.Json.{Json}
use mt_jobs.Domain.Exceptions.{Result, ok}
use mt_jobs.Store.Db.{Db, find_job, find_tenant, dead_letter_pk}
use mt_jobs.Urls.{View, resolve, urlpatterns}
use mt_jobs.Api.{Method, Response, Context, Body, call, request, retrieved}

-- A call that answers and writes nothing.
abbrev pub Answers : Result Response × Db → Db → Type 0
Answers x d = (r : Response) × (x ≡ (ok r, d))

retrieved-Answers :
    {A : Type 0} (show : A → Body) (o : Option A) (d : Db) → Answers (retrieved show o d) d
retrieved-Answers show none d = (_, refl)
retrieved-Answers show (some a) d = (_, refl)

pub call-Answers :
    (c : Context) (view : View) (i : ℕ) (body : Json) (d : Db)
    → Answers (call c view i Method.get body d) d
unfolding call
call-Answers c View.job_list_create i body d = (_, refl)
call-Answers c View.job_detail i body d = retrieved-Answers Body.job (find_job i d) d
call-Answers c View.job_attempt_list i body d = (_, refl)
call-Answers c View.job_cancel i body d = (_, refl)
call-Answers c View.dead_letter_list i body d = (_, refl)
call-Answers c View.dead_letter_detail i body d =
    retrieved-Answers Body.dead_letter (find dead_letter_pk i d.dead_letters) d
call-Answers c View.dead_letter_replay i body d = (_, refl)
call-Answers c View.tenant_list_create i body d = (_, refl)
call-Answers c View.tenant_detail i body d = retrieved-Answers Body.tenant (find_tenant i d) d

pub get-Answers :
    (c : Context) (path : List String) (body : Json) (d : Db)
    → Answers (request c Method.get path body d) d
unfolding request
get-Answers c path body d = elim (Option-cases (resolve c.converter urlpatterns path)) [
  | inl e ↦ rw e (_, refl)
  | inr ((view, []), e) ↦ rw e (call-Answers c view 0 body d)
  | inr ((view, i ∷ is), e) ↦ rw e (call-Answers c view i body d)
]
