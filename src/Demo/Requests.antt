-- ===== src/Demo/Requests.antt =====
-- The one request that each subcommand of demo/src/main.rs sends.
use multi_tenant_agent_platf.Prelude.{
  ℕ, String, Bool, Option, none, some, List, [], ◌∷◌, ℤ, if◌then◌else◌,
}
use multi_tenant_agent_platf.Text.{join}
use multi_tenant_agent_platf.Json.{Value}
use multi_tenant_agent_platf.Core.{StartRunRequest, invalid_tool_call_sentinel}
use multi_tenant_agent_platf.Runtime.{Serde}
use multi_tenant_agent_platf.Http.Router.{Method, get, post, delete}
use multi_tenant_agent_platf.Demo.Client.{Body, no_body}
use multi_tenant_agent_platf.Demo.Client

-- The arguments of ApiClient::get, ::post and ::delete.
pub record Call : Type 0 where
  pub method : Method
  pub path : String
  pub api_key : Option String
  pub body : Body
  pub idempotency_key : Option String

unfoldable pub get_call : String → String → Call
get_call path api_key = record {
  method = get;
  path = path;
  api_key = some api_key;
  body = no_body;
  idempotency_key = none;
}

unfoldable pub delete_call : String → String → Call
delete_call path api_key = record {
  method = delete;
  path = path;
  api_key = some api_key;
  body = no_body;
  idempotency_key = none;
}

unfoldable pub post_call : String → Option String → Body → Option String → Call
post_call path api_key body idempotency_key = record {
  method = post;
  path = path;
  api_key = api_key;
  body = body;
  idempotency_key = idempotency_key;
}

unfoldable pub create_tenant_call : String → Call
unfolding post_call
create_tenant_call name = post_call "/tenants" none (Client.tenant (record { name = name })) none

unfoldable pub create_api_key_call : Serde → ℕ → Call
unfolding post_call
create_api_key_call s tenant_id =
    post_call (join "/tenants/" (join (s.uuid_text tenant_id) "/api-keys")) none Client.empty_object
      none

unfoldable pub create_tool_call : String → String → Value → Value → Call
unfolding post_call
create_tool_call api_key name input_schema mock_handler =
    post_call "/tools" (some api_key)
      (Client.tool
        (record { name = name; input_schema = input_schema; mock_handler = mock_handler }))
      none

unfoldable pub list_tools_call : String → Call
unfolding get_call
list_tools_call api_key = get_call "/tools" api_key

unfoldable pub delete_tool_call : Serde → String → ℕ → Call
unfolding delete_call
delete_tool_call s api_key tool_id = delete_call (join "/tools/" (s.uuid_text tool_id)) api_key

unfoldable pub create_agent_call : String → Option String → String → List ℕ → ℤ → Call
unfolding post_call
create_agent_call api_key name system_prompt tool_ids max_iterations =
    post_call "/agents" (some api_key)
      (Client.agent (record {
        name = name;
        system_prompt = system_prompt;
        tool_ids = tool_ids;
        max_iterations = max_iterations;
      }))
      none

unfoldable pub get_agent_call : Serde → String → ℕ → Call
unfolding get_call
get_agent_call s api_key agent_id = get_call (join "/agents/" (s.uuid_text agent_id)) api_key

-- The content of the user's message.
unfoldable pub content_of : String → Bool → String
content_of message force_invalid_tool_call =
    if force_invalid_tool_call then join message (join " " invalid_tool_call_sentinel) else message

unfoldable pub start_request : String → Bool → StartRunRequest
unfolding content_of
start_request message force_invalid_tool_call = record {
  messages = record { role = "user"; content = content_of message force_invalid_tool_call } ∷ [];
}

unfoldable pub start_run_call : Serde → String → ℕ → String → Option String → Bool → Call
unfolding post_call start_request
start_run_call s api_key agent_id message idempotency_key force_invalid_tool_call =
    post_call (join "/agents/" (join (s.uuid_text agent_id) "/run")) (some api_key)
      (Client.run (start_request message force_invalid_tool_call)) idempotency_key

unfoldable pub get_run_call : Serde → String → ℕ → Call
unfolding get_call
get_run_call s api_key run_id = get_call (join "/runs/" (s.uuid_text run_id)) api_key

unfoldable pub get_trace_call : Serde → String → ℕ → Call
unfolding get_call
get_trace_call s api_key run_id =
    get_call (join "/runs/" (join (s.uuid_text run_id) "/trace")) api_key
