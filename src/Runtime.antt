-- ===== src/Runtime.antt =====
-- server/src/runtime.rs: one run of an agent. The crates that it calls are parameters, `Services`.
-- A run is an action on the database; the scheduler around it is Scheduler.antt.
pub mod Decision
pub mod Loop
pub mod Authorization
use multi_tenant_agent_platf.Prelude.{
  ◌≡◌, String, Bool, true, false, ◌&&◌, Option, none, some, if◌then◌else◌, not, ℕ, List, str_eq,
}
use multi_tenant_agent_platf.Json.{
  Value, str, num, pos_int, object1, object2, get, as_str, is_array,
}
use multi_tenant_agent_platf.Text.{contains}
use multi_tenant_agent_platf.Core.{ChatMessage, invalid_tool_call_sentinel}
use multi_tenant_agent_platf.Error.{
  AppError, invalid_api_key, internal, bad_request, invalid_tool_arguments,
  scheduler_capacity_exceeded, tenant_concurrency_limit_exceeded, not_found, duplicate_name, db,
  serde_json,
}
use multi_tenant_agent_platf.Exec.{Result, ok, err}
use multi_tenant_agent_platf.Db.{Engine}
use multi_tenant_agent_platf.Auth.{Argon2}

-- The jsonschema crate: whether a schema compiles, and whether a value conforms to it.
pub record JsonSchema : Type 0 where
  pub compiles : Value → Bool
  pub is_valid : Value → Value → Bool

-- serde on the message list, serde_json::to_string, and the text of a UUID.
pub record Serde : Type 0 where
  pub to_value : List ChatMessage → Value
  pub from_value : Value → Option (List ChatMessage)
  pub to_string : Value → Option String
  pub uuid_text : ℕ → String
  pub from_value-to_value : (ms : List ChatMessage) → from_value (to_value ms) ≡ some ms
  pub to_value-is_array : (ms : List ChatMessage) → is_array (to_value ms) ≡ true

pub record Services : Type 1 where
  pub engine : Engine
  pub argon2 : Argon2
  pub schema : JsonSchema
  pub serde : Serde

unfoldable pub message_requests_invalid_tool_call : ChatMessage → Bool
message_requests_invalid_tool_call m =
    str_eq m.role "user" && contains invalid_tool_call_sentinel m.content

unfoldable pub validate_tool_arguments : JsonSchema → Value → Value → Result AppError (Unit {0})
validate_tool_arguments j input_schema arguments =
    if not (j.compiles input_schema)
    then err (bad_request "invalid input schema")
    else if j.is_valid input_schema arguments
    then ok tt
    else err invalid_tool_arguments

unfoldable pub normalize_error_reason : AppError → String
normalize_error_reason (bad_request reason) = reason
normalize_error_reason invalid_tool_arguments = "invalid_tool_arguments"
normalize_error_reason scheduler_capacity_exceeded = "scheduler_capacity_exceeded"
normalize_error_reason tenant_concurrency_limit_exceeded = "tenant_concurrency_limit_exceeded"
normalize_error_reason not_found = "resource_not_found"
normalize_error_reason invalid_api_key = "internal_error"
normalize_error_reason duplicate_name = "internal_error"
normalize_error_reason (internal _) = "internal_error"
normalize_error_reason (db _) = "internal_error"
normalize_error_reason serde_json = "internal_error"

-- mock_handler.get("type").and_then(Value::as_str)
abbrev pub text_of : Option Value → Option String
text_of none = none
text_of (some v) = as_str v

abbrev pub is_static : Option String → Bool
is_static none = false
is_static (some s) = str_eq s "static"

abbrev pub response_or_error : Option Value → Result AppError Value
response_or_error none = err (bad_request "mock_handler.response is required")
response_or_error (some v) = ok v

unfoldable pub execute_mock_handler : Value → Result AppError Value
execute_mock_handler mock_handler =
    if is_static (text_of (get "type" mock_handler))
    then response_or_error (get "response" mock_handler)
    else err (bad_request "only static mock handlers are supported")
