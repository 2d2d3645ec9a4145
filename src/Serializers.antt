-- ===== src/Serializers.antt =====
-- jobs/serializers.py and tenants/serializers.py. What the REST framework and the tables of Unicode do
-- is a parameter: the checks of the fields that the models declare, and the classes and upper
-- case forms of characters.
pub mod Spelling
use Prim.Native.Char.{Char, code}
use mathlib.Core.List.{reverse}
use text.Mathlib.TextBridge.{to_list, of_list}
use mt_jobs.Base.{
  ℕ, String, Bool, Option, none, some, List, [], ◌∷◌, ◌++◌, ◌==◌, str_eq, if◌then◌else◌, map,
}
use mt_jobs.Models.Json.{Json, Fields, end, field, get_field}
use mt_jobs.Services.Submission.{Submission}

-- The tables of Unicode that `str.strip` and `str.upper` read, a character at a time.
pub record Unicode : Type 0 where
  pub is_space : Char → Bool
  pub to_upper : Char → List Char

unfoldable pub drop_spaces : Unicode → List Char → List Char
drop_spaces u [] = []
drop_spaces u (c ∷ s) = if u.is_space c then drop_spaces u s else c ∷ s

-- `s.strip()`
unfoldable pub strip : Unicode → List Char → List Char
unfolding drop_spaces
strip u s = reverse (drop_spaces u (reverse (drop_spaces u s)))

-- `s.upper()`
unfoldable pub upper : Unicode → List Char → List Char
upper u [] = []
upper u (c ∷ s) = u.to_upper c ++ upper u s

abbrev pub underscored : Char → Char
underscored c = if code c == 32 then "_" else c

-- `data["job_type"].strip().upper().replace(" ", "_")`
unfoldable pub normalise : Unicode → String → String
unfolding strip upper
normalise u s = of_list (map underscored (upper u (strip u (to_list s))))

-- `data = data.copy(); data[key] = value`, where the key is there.
unfoldable pub set_field : String → Json → Fields → Fields
set_field k v end = end
set_field k v (field j w fs) = if str_eq j k then field j v fs else field j w (set_field k v fs)

abbrev with_text : Unicode → Fields → Option Json → Fields
with_text u fs (some (Json.str s)) = set_field "job_type" (Json.str (normalise u s)) fs
with_text u fs _ = fs

-- The body with the normalised text of its job type.
unfoldable pub normalised : Unicode → Fields → Fields
unfolding set_field
normalised u fs = with_text u fs (get_field "job_type" fs)

-- What `validated_data` holds: a column that the body leaves out is missing. `others` holds the further
-- columns that the body gives: `fields = "__all__"` lets a client write `status`, `result`,
-- `attempt_count`, the two error columns and four of the time stamps too.
pub record Validated : Type 0 where
  pub tenant : ℕ
  pub job_type : String
  pub priority : Option ℕ
  pub payload : Option Json
  pub available_at : Option ℕ
  pub others : Fields

-- What `validated_data` of a tenant holds.
pub record TenantChanges : Type 0 where
  pub name : Option String
  pub is_active : Option Bool
  pub max_concurrent_jobs : Option ℕ

-- The REST framework: the checks of the declared fields, where `none` is a `ValidationError`.
-- `partial` says whether required fields may be missing.
pub record Framework : Type 0 where
  pub unicode : Unicode
  pub validate_job : Fields → Option Validated
  pub validate_tenant : Bool → Fields → Option TenantChanges

-- `JobSerializer.to_internal_value`; the framework refuses a body that is no object.
unfoldable pub to_internal_value : Framework → Json → Option Validated
unfolding normalised
to_internal_value f (Json.obj fs) = f.validate_job (normalised f.unicode fs)
to_internal_value f _ = none

unfoldable pub validated_tenant : Framework → Bool → Json → Option TenantChanges
validated_tenant f partial (Json.obj fs) = f.validate_tenant partial fs
validated_tenant f partial _ = none

-- `priority=JobPriority.NORMAL`
abbrev pub priority_or_normal : Option ℕ → ℕ
priority_or_normal none = 3
priority_or_normal (some p) = p

-- The keyword arguments of `submit_job(**job_data)`, which takes the further columns as `**kwargs` and
-- never looks at them.
unfoldable pub call_arguments : Validated → Submission
call_arguments v = record {
  tenant = v.tenant;
  job_type = v.job_type;
  payload = v.payload;
  priority = priority_or_normal v.priority;
  idempotency_key = none;
  available_at = v.available_at;
}
