-- ===== src/Tests/Framework.antt =====
-- A framework to run the API on: ASCII letters, ids in unary, and the fields that a body names.
use Prim.Native.Char.{Char, code}
use text.Mathlib.TextBridge.{to_list, of_list, to_list-of_list}
use mt_jobs.Base.{
  ℕ, zero, suc, String, true, Option, none, some, List, [], ◌∷◌, ◌≡◌, ◌==◌, refl, ap, ◌∙◌,
  if◌then◌else◌, ==→eq, length, str_eq, eq_iff, Bool-cases, inl, inr, arith,
}
use mt_jobs.Models.Json.{Json, Fields, end, field, get_field}
use mt_jobs.Serializers.{Unicode, Framework, Validated, TenantChanges}
use mt_jobs.Serializers.Spelling.{IsUnicode}
use mt_jobs.Urls.{Converter}
use mt_jobs.Api.{Context}
use mt_jobs.Tests.Scenario.{to_text}

abbrev letters : List (ℕ × Char)
letters =
    (97, "A")
    ∷ (98, "B")
    ∷ (99, "C")
    ∷ (100, "D")
    ∷ (101, "E")
    ∷ (102, "F")
    ∷ (103, "G")
    ∷ (104, "H")
    ∷ (105, "I")
    ∷ (106, "J")
    ∷ (107, "K")
    ∷ (108, "L")
    ∷ (109, "M")
    ∷ (110, "N")
    ∷ (111, "O")
    ∷ (112, "P")
    ∷ (113, "Q")
    ∷ (114, "R")
    ∷ (115, "S")
    ∷ (116, "T")
    ∷ (117, "U")
    ∷ (118, "V")
    ∷ (119, "W")
    ∷ (120, "X")
    ∷ (121, "Y")
    ∷ (122, "Z")
    ∷ []

abbrev found : List (ℕ × Char) → Char → List Char
found [] c = c ∷ []
found ((n, v) ∷ rest) c = if code c == n then v ∷ [] else found rest c

abbrev pub ascii : Unicode
ascii = record { is_space = λ c. code c == 32; to_upper = found letters }

pub ascii-IsUnicode : IsUnicode ascii
ascii-IsUnicode = record {
  space = refl;
  space_keeps = λ c h. let q = ==→eq (code c) 32 h in rw q refl;
  letter = λ c lo hi. ground arith;
}

-- The id is the length of its text.
abbrev marks : ℕ → List Char
marks zero = []
marks (suc n) = "i" ∷ marks n

abbrev in_unary : ℕ → String
in_unary n = of_list (marks n)

abbrev read_as : String → ℕ → Option ℕ
read_as s n = if str_eq s (in_unary n) then some n else none

abbrev pub unary : Converter
unary = record { to_python = λ s. read_as s (length (to_list s)); to_url = in_unary }

length-marks : (i : ℕ) → length (marks i) ≡ i
length-marks zero = refl
length-marks (suc i) = ap suc (length-marks i)

pub unary-reads : (i : ℕ) → unary.to_python (unary.to_url i) ≡ some i
unary-reads i =
    let same : str_eq (in_unary i) (in_unary i) ≡ true =
      (eq_iff (in_unary i) (in_unary i)).1 refl in
    rw (to_list-of_list (marks i), length-marks i, same) refl

pub unary-only : (s : String) (i : ℕ) → unary.to_python s ≡ some i → s ≡ unary.to_url i
unary-only s i h = elim (Bool-cases (str_eq s (in_unary (length (to_list s))))) [
  | inr e ↦ absurd (ground (arith, e, h))
  | inl e ↦
      let n : length (to_list s) ≡ i = ground (arith, e, h) in
      (eq_iff s (in_unary (length (to_list s)))).0 e ∙ ap in_unary n
]

abbrev validated : Fields → Option Json → Option Json → Option Validated
validated fs (some (Json.num t)) (some (Json.str s)) = some (record {
  tenant = t;
  job_type = s;
  priority = none;
  payload = get_field "payload" fs;
  available_at = none;
  others = elim (get_field "status" fs) [ none ↦ end | some v ↦ field "status" v end ];
})
validated fs t s = none

abbrev changes : Option Json → Option TenantChanges
changes (some (Json.num n)) =
    some (record { name = none; is_active = none; max_concurrent_jobs = some n })
changes v = none

abbrev pub framework : Framework
framework = record {
  unicode = ascii;
  validate_job = λ fs. validated fs (get_field "tenant" fs) (get_field "job_type" fs);
  validate_tenant = λ partial fs. changes (get_field "max_concurrent_jobs" fs);
}

abbrev pub context : Context
context = record {
  framework = framework;
  converter = unary;
  to_text = to_text;
  now = 200;
  generated = "u";
  idempotency_key_header = some "first";
  x_idempotency_key_header = none;
}
