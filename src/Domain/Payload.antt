-- ===== src/Domain/Payload.antt =====
-- `payload.get(key)`: an `AttributeError` where the payload is no dict.
use mt_jobs.Base.{String, Option}
use mt_jobs.Models.Json.{Json, get_field}
use mt_jobs.Domain.Exceptions.{Exception, Result, ok, err}

unfoldable pub payload_get : Json → String → Result (Option Json)
unfolding get_field
payload_get (Json.obj fs) key = ok (get_field key fs)
payload_get _ key = err (Exception.attribute_error "object has no attribute 'get'")
