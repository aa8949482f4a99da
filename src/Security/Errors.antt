-- ===== src/Security/Errors.antt =====
-- packages/security/src/index.ts: the error classes, with the code and the HTTP status of each.
-- The `details` records, which only reach the response body, are left out, except where the
-- program names a permission or a resource in them.
use Prim.Native.Nat.{ℕ}
use Prim.Native.String.{String}

pub data AppError : Type 0 where
  version_conflict : AppError
  tenant_access_denied : AppError
  authentication_required : String → AppError
  invalid_credentials : AppError
  invalid_token : String → AppError
  idempotency_conflict : AppError
  validation_failed : String → AppError
  permission_denied : String → AppError
  resource_not_found : String → AppError
  resource_conflict : String → AppError
  -- `new AppError(code, message, status)` written out where it is thrown
  app_error : String → String → ℕ → AppError
  -- any other throw, such as a statement that the database refuses
  other_error : String → AppError

unfoldable pub code_of : AppError → String
code_of version_conflict = "RESOURCE_VERSION_CONFLICT"
code_of tenant_access_denied = "TENANT_ACCESS_DENIED"
code_of (authentication_required m) = "AUTHENTICATION_REQUIRED"
code_of invalid_credentials = "INVALID_CREDENTIALS"
code_of (invalid_token m) = "INVALID_TOKEN"
code_of idempotency_conflict = "IDEMPOTENCY_KEY_REUSED_WITH_DIFFERENT_REQUEST"
code_of (validation_failed m) = "VALIDATION_FAILED"
code_of (permission_denied p) = "PERMISSION_DENIED"
code_of (resource_not_found r) = "NOT_FOUND"
code_of (resource_conflict m) = "CONFLICT"
code_of (app_error c m s) = c
code_of (other_error m) = ""

unfoldable pub status_code : AppError → ℕ
status_code version_conflict = 409
status_code tenant_access_denied = 404
status_code (authentication_required m) = 401
status_code invalid_credentials = 401
status_code (invalid_token m) = 401
status_code idempotency_conflict = 409
status_code (validation_failed m) = 400
status_code (permission_denied p) = 403
status_code (resource_not_found r) = 404
status_code (resource_conflict m) = 409
status_code (app_error c m s) = s
status_code (other_error m) = 0
