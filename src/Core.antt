-- ===== src/Core.antt =====
-- crates/platform-core/src/lib.rs: the run status, the messages and the request and response types.
-- A UUID and a time stamp are numbers: the code only compares them, `Uuid::nil()` is 0.
pub mod Status
use multi_tenant_agent_platf.Prelude.{ℕ, String, Option, List, ℤ, str_eq, if◌then◌else◌}
use multi_tenant_agent_platf.Json.{Value}

pub data RunStatus : Type 0 where
  pending running success failed : RunStatus

unfoldable pub as_str : RunStatus → String
as_str pending = "pending"
as_str running = "running"
as_str success = "success"
as_str failed = "failed"

pub record ChatMessage : Type 0 where
  pub role : String
  pub content : String

pub record CreateTenantRequest : Type 0 where
  pub name : String

pub record CreateTenantResponse : Type 0 where
  pub tenant_id : ℕ
  pub name : String

pub record CreateApiKeyResponse : Type 0 where
  pub api_key : String
  pub warning : String

pub record CreateToolRequest : Type 0 where
  pub name : String
  pub input_schema : Value
  pub mock_handler : Value

pub record ToolResponse : Type 0 where
  pub tool_id : ℕ
  pub name : String
  pub input_schema : Value
  pub mock_handler : Value
  pub created_at : ℕ

pub record CreateAgentRequest : Type 0 where
  pub name : Option String
  pub system_prompt : String
  pub tool_ids : List ℕ
  pub max_iterations : ℤ

pub record AgentResponse : Type 0 where
  pub agent_id : ℕ
  pub name : Option String
  pub system_prompt : String
  pub tool_ids : List ℕ
  pub max_iterations : ℤ
  pub created_at : ℕ

pub record StartRunRequest : Type 0 where
  pub messages : List ChatMessage

pub record StartRunResponse : Type 0 where
  pub run_id : ℕ
  pub status : RunStatus

pub record RunResponse : Type 0 where
  pub run_id : ℕ
  pub agent_id : ℕ
  pub status : RunStatus
  pub final_answer : Option String
  pub error_reason : Option String
  pub created_at : ℕ
  pub started_at : Option ℕ
  pub finished_at : Option ℕ

pub record TraceEventResponse : Type 0 where
  pub seq : ℕ
  pub event_type : String
  pub payload : Value
  pub created_at : ℕ

pub record ErrorResponse : Type 0 where
  pub error : String

abbrev pub invalid_tool_call_sentinel : String
invalid_tool_call_sentinel = "__force_invalid_tool_call__"
