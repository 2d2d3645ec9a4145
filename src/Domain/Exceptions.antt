-- ===== src/Domain/Exceptions.antt =====
-- jobs/domain/exceptions.py, with the exceptions of Python, Django and the broker that the services
-- meet, and the result of a call that may raise.
use Prim.Native.String.{◌++◌}
use mt_jobs.Base.{String, ◌≡◌, ◌⊎◌, inl, inr, refl}
use mt_jobs.Models.Job.{JobStatus, value}

pub data Exception : Type 0 where
  retryable_job_error : String → Exception
  permanent_job_error : String → Exception
  invalid_job_transition : JobStatus → JobStatus → Exception
  does_not_exist : String → Exception  -- Model.DoesNotExist, with the model's name
  integrity_error : String → Exception  -- with the constraint's name
  data_error : String → Exception  -- a value that its column does not hold
  value_error : String → Exception
  type_error : String → Exception
  attribute_error : String → Exception
  operational_error : String → Exception  -- the broker cannot be reached

-- `str(exc)`
unfoldable pub str : Exception → String
unfolding value
str (Exception.retryable_job_error m) = m
str (Exception.permanent_job_error m) = m
str (Exception.invalid_job_transition a b) =
    "Invalid transition: " ++ (value a ++ (" -> " ++ value b))
str (Exception.does_not_exist m) = m ++ " matching query does not exist."
str (Exception.integrity_error m) = m
str (Exception.data_error m) = m
str (Exception.value_error m) = m
str (Exception.type_error m) = m
str (Exception.attribute_error m) = m
str (Exception.operational_error m) = m

pub data Result {ℓ} (A : Type ℓ) : Type ℓ where
  ok : A → Result A
  err : Exception → Result A

pub Result-cases {ℓ} :
    {A : Type ℓ} (r : Result A) → ((e : Exception) × (r ≡ err e)) ⊎ ((a : A) × (r ≡ ok a))
Result-cases (ok a) = inr (a, refl)
Result-cases (err e) = inl (e, refl)
