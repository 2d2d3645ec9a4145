-- ===== src/Urls.antt =====
-- config/urls.py, jobs/urls.py and tenants/urls.py. A path is the list of its parts between slashes,
-- without the slash in front: "/jobs/" is "jobs" and the empty text. The converter `uuid` of
-- Django is a parameter.
pub mod Paths
use mt_jobs.Base.{ℕ, String, Option, none, some, List, [], ◌∷◌, ◌++◌, str_eq, if◌then◌else◌}

-- The converter `uuid`: it reads the canonical text of an id and nothing else.
pub record Converter : Type 0 where
  pub to_python : String → Option ℕ
  pub to_url : ℕ → String

-- The names of the views, as the URL configurations spell them.
pub data View : Type 0 where
  job_list_create job_detail job_attempt_list job_cancel dead_letter_list dead_letter_detail
        dead_letter_replay tenant_list_create tenant_detail :
      View

pub data Part : Type 0 where
  lit : String → Part
  uuid : Part

pub record Route : Type 0 where
  pub pattern : List Part
  pub view : View

abbrev pub path : List Part → View → Route
path pattern view = record { pattern = pattern; view = view }

unfoldable pub jobs_urlpatterns : List Route
jobs_urlpatterns =
    path (lit "jobs" ∷ lit "" ∷ []) View.job_list_create
    ∷ path (lit "jobs" ∷ uuid ∷ lit "" ∷ []) View.job_detail
    ∷ path (lit "jobs" ∷ uuid ∷ lit "attempts" ∷ lit "" ∷ []) View.job_attempt_list
    ∷ path (lit "jobs" ∷ uuid ∷ lit "cancel" ∷ lit "" ∷ []) View.job_cancel
    ∷ path (lit "dead-letters" ∷ lit "" ∷ []) View.dead_letter_list
    ∷ path (lit "dead-letters" ∷ uuid ∷ lit "" ∷ []) View.dead_letter_detail
    ∷ path (lit "dead-letters" ∷ uuid ∷ lit "replay" ∷ lit "" ∷ []) View.dead_letter_replay
    ∷ []

unfoldable pub tenants_urlpatterns : List Route
tenants_urlpatterns =
    path (lit "tenants" ∷ lit "" ∷ []) View.tenant_list_create
    ∷ path (lit "tenants" ∷ uuid ∷ lit "" ∷ []) View.tenant_detail
    ∷ []

-- Both are included under the empty prefix.
unfoldable pub urlpatterns : List Route
unfolding jobs_urlpatterns tenants_urlpatterns
urlpatterns = jobs_urlpatterns ++ tenants_urlpatterns

abbrev captured : Option ℕ → Option (List ℕ) → Option (List ℕ)
captured (some i) (some is) = some (i ∷ is)
captured (some i) none = none
captured none m = none

-- The ids that a pattern captures from a path, if it fits.
unfoldable pub match : Converter → List Part → List String → Option (List ℕ)
match c [] [] = some []
match c [] (s ∷ rest) = none
match c (p ∷ ps) [] = none
match c (lit t ∷ ps) (s ∷ rest) = if str_eq t s then match c ps rest else none
match c (uuid ∷ ps) (s ∷ rest) = captured (c.to_python s) (match c ps rest)

-- The first route that fits.
unfoldable pub resolve : Converter → List Route → List String → Option (View × List ℕ)
unfolding match
resolve c [] p = none
resolve c (r ∷ rs) p = elim (match c r.pattern p) [
  | none ↦ resolve c rs p
  | some ids ↦ some (r.view, ids)
]
