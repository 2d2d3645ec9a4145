-- ===== src/Handlers/Registry.antt =====
-- jobs/handlers/registry.py
use Prim.Native.String.{◌++◌}
use mt_jobs.Base.{String, Option, none, some, List, [], ◌∷◌, str_eq, if◌then◌else◌}
use mt_jobs.Domain.Exceptions.{Exception, Result, ok, err}
use mt_jobs.Handlers.Context.{Handler}

-- `_registry`, the entry set last first.
abbrev pub Registry : Type 0
Registry = List (String × Handler)

-- `@register(job_type)`
unfoldable pub register : String → Handler → Registry → Registry
register job_type handler registry = (job_type, handler) ∷ registry

unfoldable pub lookup : String → Registry → Option Handler
lookup job_type [] = none
lookup job_type ((k, h) ∷ rest) = if str_eq k job_type then some h else lookup job_type rest

unfoldable pub get_handler : Registry → String → Result Handler
unfolding lookup
get_handler registry job_type = elim (lookup job_type registry) [
  | none ↦ err (Exception.value_error ("No handler registered for: " ++ job_type))
  | some h ↦ ok h
]
