-- ===== src/Error.antt =====
-- server/src/error.rs, with the errors of the database that the code tells apart.
use multi_tenant_agent_platf.Prelude.{ℕ, String}
use multi_tenant_agent_platf.Core.{ErrorResponse}

-- sqlx::Error: the constraint that a statement violates, a value out of range, a statement in a
-- transaction that has failed, and fetch_one without a row.
pub data DbError : Type 0 where
  constraint : String → DbError
  out_of_range : DbError
  in_failed_transaction : DbError
  row_not_found : DbError

pub data AppError : Type 0 where
  invalid_api_key : AppError
  not_found : AppError
  duplicate_name : AppError
  bad_request : String → AppError
  invalid_tool_arguments : AppError
  scheduler_capacity_exceeded : AppError
  tenant_concurrency_limit_exceeded : AppError
  internal : String → AppError
  db : DbError → AppError
  serde_json : AppError

unfoldable pub error_code : AppError → String
error_code invalid_api_key = "invalid_api_key"
error_code not_found = "resource_not_found"
error_code duplicate_name = "duplicate_name"
error_code (bad_request _) = "invalid_request"
error_code invalid_tool_arguments = "invalid_tool_arguments"
error_code scheduler_capacity_exceeded = "scheduler_capacity_exceeded"
error_code tenant_concurrency_limit_exceeded = "tenant_concurrency_limit_exceeded"
error_code (internal _) = "internal_error"
error_code (db _) = "internal_error"
error_code serde_json = "internal_error"

unfoldable pub status_code : AppError → ℕ
status_code invalid_api_key = 401
status_code not_found = 404
status_code duplicate_name = 409
status_code (bad_request _) = 400
status_code invalid_tool_arguments = 422
status_code scheduler_capacity_exceeded = 503
status_code tenant_concurrency_limit_exceeded = 429
status_code (internal _) = 500
status_code (db _) = 500
status_code serde_json = 500

-- The status and the body of the response that an error becomes.
unfoldable pub into_response : AppError → ℕ × ErrorResponse
into_response e = (status_code e, record { error = error_code e })
