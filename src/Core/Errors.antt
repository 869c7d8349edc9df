-- ===== src/Core/Errors.antt =====
-- app/core/exceptions.py: the exception classes, with their codes and HTTP statuses. The messages
-- are texts for people, and are left out.
use trelgream_self_userbot.Prelude.{ℕ, String, Option, none, some}

-- The subclasses of `AppError`, and the other exceptions that the modelled code can raise.
pub data Exception : Type 0 where
  app_error : Exception
  not_found : Exception
  permission_denied : Exception
  authentication_error : Exception
  tenant_violation : Exception
  validation_error : Exception
  rate_limited : Exception
  conflict : Exception
  service_unavailable : Exception
  not_configured : Exception
  not_implemented : Exception
  telegram_auth_error : Exception
  telegram_flood_wait : Exception
  session_error : Exception
  multiple_results_found : Exception
  integrity_error : Exception
  value_error : Exception
  overflow_error : Exception
  type_error : Exception
  attribute_error : Exception
  regex_error : Exception
  key_error : Exception
  no_result_found : Exception
  flood_wait : (seconds : ℕ) → Exception
  phone_code_invalid : Exception
  phone_code_expired : Exception
  password_hash_invalid : Exception
  session_password_needed : Exception

-- The base class, `none` for `Exception` itself and for what does not inherit from `AppError`.
unfoldable pub base_class : Exception → Option Exception
base_class app_error = none
base_class tenant_violation = some permission_denied
base_class multiple_results_found = none
base_class integrity_error = none
base_class value_error = none
base_class overflow_error = none
base_class type_error = none
base_class attribute_error = none
base_class regex_error = none
base_class key_error = none
base_class no_result_found = none
base_class (flood_wait seconds) = none
base_class phone_code_invalid = none
base_class phone_code_expired = none
base_class password_hash_invalid = none
base_class session_password_needed = none
base_class _ = some app_error

unfoldable pub code : Exception → Option String
code app_error = some "app_error"
code not_found = some "not_found"
code permission_denied = some "permission_denied"
code authentication_error = some "authentication_error"
code tenant_violation = some "tenant_violation"
code validation_error = some "validation_error"
code rate_limited = some "rate_limited"
code conflict = some "conflict"
code service_unavailable = some "service_unavailable"
code not_configured = some "not_configured"
code not_implemented = some "not_implemented"
code telegram_auth_error = some "telegram_auth_error"
code telegram_flood_wait = some "telegram_flood_wait"
code session_error = some "session_error"
code _ = none

-- `status_code`, with the value of the base class where the class sets none.
unfoldable pub status_code : Exception → Option ℕ
status_code app_error = some 400
status_code not_found = some 404
status_code permission_denied = some 403
status_code authentication_error = some 401
status_code tenant_violation = some 403
status_code validation_error = some 422
status_code rate_limited = some 429
status_code conflict = some 409
status_code service_unavailable = some 503
status_code not_configured = some 500
status_code not_implemented = some 501
status_code telegram_auth_error = some 400
status_code telegram_flood_wait = some 429
status_code session_error = some 400
status_code _ = none
