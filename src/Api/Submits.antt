-- ===== src/Api/Submits.antt =====
-- What `POST /jobs/` makes of the spelling of a job type.
use mt_jobs.Base.{
  String, false, Option, none, some, ◌≡◌, ◌⊎◌, refl, sym, ap, ◌∙◌, str_eq, eq_iff, Bool-cases, inl,
  inr, arith,
}
use mt_jobs.Models.Json.{Json, Fields, end, field, get_field}
use mt_jobs.Models.Job.{JobType, type_value}
use mt_jobs.Serializers.{
  Unicode, Framework, Validated, set_field, normalise, normalised, to_internal_value,
}
use mt_jobs.Serializers.Spelling.{IsUnicode, Spells, normalise-Spells}
use mt_jobs.Api.{Context, post_job, create_validated}

-- Whether the key is there, and its value if it is.
get_field-set_field :
    (k : String) (v : Json) (fs : Fields)
    → ((get_field k fs ≡ none) × (get_field k (set_field k v fs) ≡ none))
      ⊎ (get_field k (set_field k v fs) ≡ some v)
unfolding get_field set_field
get_field-set_field k v end = inl (refl, refl)
get_field-set_field k v (field j w fs) = elim (Bool-cases (str_eq j k)) [
  | inl e ↦ inr (ground (arith, e))
  | inr e ↦ elim (get_field-set_field k v fs) [
    | inl (x, y) ↦ inl (ground (arith, e, x), ground (arith, e, y))
    | inr y ↦ inr (ground (arith, e, y))
  ]
]

set_field-set_field :
    (k : String) (v w : Json) (fs : Fields) → set_field k v (set_field k w fs) ≡ set_field k v fs
unfolding set_field
set_field-set_field k v w end = refl
set_field-set_field k v w (field j x fs) = ground (arith, set_field-set_field k v w fs)

set_field-missing :
    (k : String) (v : Json) (fs : Fields) → get_field k fs ≡ none → set_field k v fs ≡ fs
unfolding set_field get_field
set_field-missing k v end h = refl
set_field-missing k v (field j x fs) h = ground (arith, set_field-missing k v fs)

get_field-other :
    (k j : String) (v : Json) (fs : Fields)
    → str_eq k j ≡ false
    → get_field j (set_field k v fs) ≡ get_field j fs
unfolding set_field get_field
get_field-other k j v end h = refl
get_field-other k j v (field i x fs) h =
    ground (arith, eq_iff i k, eq_iff i j, eq_iff k j, get_field-other k j v fs h)

-- The body with a text for its job type, if it has a job type.
abbrev pub with_type : String → Fields → Json
with_type s fs = Json.obj (set_field "job_type" (Json.str s) fs)

normalised-set_field :
    (u : Unicode) (s : String) (fs : Fields)
    → normalised u (set_field "job_type" (Json.str s) fs)
      ≡ set_field "job_type" (Json.str (normalise u s)) fs
unfolding normalised
normalised-set_field u s fs = elim (get_field-set_field "job_type" (Json.str s) fs) [
  | inl (x, y) ↦ rw y (
      set_field-missing _ (Json.str s) fs x
      ∙ sym (set_field-missing _ (Json.str (normalise u s)) fs x))
  | inr y ↦ rw y (set_field-set_field "job_type" (Json.str (normalise u s)) (Json.str s) fs)
]

pub post_job-eq :
    (c : Context) (body : Json)
    → post_job c body ≡ create_validated c body (to_internal_value c.framework body)
unfolding post_job
post_job-eq c body = refl

create_validated-with_type :
    (c : Context) (s : String) (fs : Fields) (v : Option Validated)
    → create_validated c (with_type s fs) v ≡ create_validated c (Json.obj fs) v
unfolding create_validated
create_validated-with_type c s fs none = refl
create_validated-with_type c s fs (some v) =
    rw (get_field-other "job_type" "idempotency_key" (Json.str s) fs refl) refl

to_internal_value-normalised :
    (f : Framework) (fs : Fields)
    → to_internal_value f (Json.obj fs) ≡ f.validate_job (normalised f.unicode fs)
unfolding to_internal_value
to_internal_value-normalised f fs = refl

-- The fields are checked with the type in the place of its spelling.
pub to_internal_value-Spells :
    (f : Framework) (t : JobType) (s : String) (fs : Fields)
    → IsUnicode f.unicode
    → Spells f.unicode t s
    → to_internal_value f (with_type s fs)
      ≡ f.validate_job (set_field "job_type" (Json.str (type_value t)) fs)
to_internal_value-Spells f t s fs laws h =
    to_internal_value-normalised f (set_field "job_type" (Json.str s) fs)
    ∙ ap f.validate_job
        (rw (normalised-set_field f.unicode s fs, normalise-Spells f.unicode laws t s h) refl)

post_job-type_value :
    (c : Context) (t : JobType) (s : String) (fs : Fields)
    → IsUnicode c.framework.unicode
    → Spells c.framework.unicode t s
    → post_job c (with_type s fs)
      ≡ create_validated c
          (Json.obj fs)
          (c.framework.validate_job (set_field "job_type" (Json.str (type_value t)) fs))
post_job-type_value c t s fs laws h =
    post_job-eq c (with_type s fs)
    ∙ rw (to_internal_value-Spells c.framework t s fs laws h) (create_validated-with_type c s fs _)

-- Where the tables of Unicode leave white space as it is and take no letter from A to Z for white
-- space, two bodies of `POST /jobs/` that differ in the spelling of a job type alone, padded with
-- white space, in either case, with spaces for underscores, have the same effect and answer.
pub post_job-Spells :
    (c : Context) (t : JobType) (s s' : String) (fs : Fields)
    → IsUnicode c.framework.unicode
    → Spells c.framework.unicode t s
    → Spells c.framework.unicode t s'
    → post_job c (with_type s fs) ≡ post_job c (with_type s' fs)
post_job-Spells c t s s' fs laws h h' =
    post_job-type_value c t s fs laws h ∙ sym (post_job-type_value c t s' fs laws h')
