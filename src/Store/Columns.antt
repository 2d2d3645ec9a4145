-- ===== src/Store/Columns.antt =====
-- What the columns of a job hold (jobs/models/job.py): PostgreSQL raises DataError for a text that is
-- longer than its column, for a priority that is no smallint, and for the character NUL, also in a
-- text of a JSON value.
use Prim.Native.Char.{code}
use Prim.Native.String.{count as characters}
use mt_jobs.Base.{ℕ, String, Bool, true, false, not, Option, none, some, ◌==◌, ◌&&◌, ◌||◌, leb}
use mt_jobs.Models.Json.{Json, Items, Fields, nil, cons, end, field}
use mt_jobs.Models.Job.{Job}

unfoldable pub has_nul : String → Bool
has_nul String.[] = false
has_nul (String.◌∷◌ c s) = code c == 0 || has_nul s

unfoldable pub fits : ℕ → String → Bool
unfolding has_nul
fits max_length s = leb (characters s) max_length && not (has_nul s)

unfoldable mutual
  unfolding has_nul

  pub json_has_nul : Json → Bool
  json_has_nul Json.null = false
  json_has_nul (Json.bool b) = false
  json_has_nul (Json.num n) = false
  json_has_nul (Json.str s) = has_nul s
  json_has_nul (Json.arr vs) = items_have_nul vs
  json_has_nul (Json.obj fs) = fields_have_nul fs

  pub items_have_nul : Items → Bool
  items_have_nul nil = false
  items_have_nul (cons v vs) = json_has_nul v || items_have_nul vs

  pub fields_have_nul : Fields → Bool
  fields_have_nul end = false
  fields_have_nul (field k v fs) = has_nul k || (json_has_nul v || fields_have_nul fs)

-- `idempotency_key`; NULL is none.
unfoldable pub key_fits : Option String → Bool
unfolding fits
key_fits none = true
key_fits (some k) = fits 255 k

-- `job_type`, `priority` and `payload`. The other columns of a new job hold numbers, instants, NULL
-- or the text of a status.
unfoldable pub arguments_fit : Job → Bool
unfolding fits json_has_nul
arguments_fit j = fits 50 j.job_type && (leb j.priority 32767 && not (json_has_nul j.payload))

unfoldable pub is_storable : Job → Bool
unfolding key_fits arguments_fit
is_storable j = key_fits j.idempotency_key && arguments_fit j
