-- ===== src/Http.antt =====
-- server/src/http.rs and the routes of server/src/app.rs: each handler, and one request as a value.
pub mod Routes
pub mod Router
use mathlib.Core.Option
use multi_tenant_agent_platf.Prelude.{
  String, Bool, true, false, ◌||◌, Option, none, some, if◌then◌else◌, not, ℕ, ◌+◌, List, map,
  is_empty,
}
use multi_tenant_agent_platf.Json
use multi_tenant_agent_platf.Json.{Value, is_object}
use multi_tenant_agent_platf.Text.{trim, is_empty_text}
use multi_tenant_agent_platf.Core.{
  RunStatus, pending, CreateTenantRequest, CreateTenantResponse, CreateApiKeyResponse,
  CreateToolRequest, ToolResponse, CreateAgentRequest, AgentResponse, StartRunRequest,
  StartRunResponse, RunResponse, TraceEventResponse,
}
use multi_tenant_agent_platf.Core.Status.{status_of_text}
use multi_tenant_agent_platf.Json.{str, object1}
use multi_tenant_agent_platf.Error.{AppError, not_found, bad_request}
use multi_tenant_agent_platf.Exec.{Result, Exec, pure, raise, ok_or, of_result, ◌>>=◌, ◌>>◌}
use multi_tenant_agent_platf.Auth.{
  HeaderMap, HeaderValue, TenantContext, KeyMaterial, authenticate, generate_api_key, to_str,
}
use multi_tenant_agent_platf.Db.{Db, Action}
use multi_tenant_agent_platf.Db.Tenants
use multi_tenant_agent_platf.Db.Tools
use multi_tenant_agent_platf.Db.Tools.{ToolRecord}
use multi_tenant_agent_platf.Db.Agents
use multi_tenant_agent_platf.Db.Agents.{AgentRecord}
use multi_tenant_agent_platf.Db.Runs
use multi_tenant_agent_platf.Db.Runs.{RunRecord}
use multi_tenant_agent_platf.Db.Traces
use multi_tenant_agent_platf.Db.Traces.{TraceRecord}
use multi_tenant_agent_platf.Runtime.{Services}
use multi_tenant_agent_platf.Scheduler.{App, AppAction, on_db, schedule_run}

unfoldable pub create_tenant : Services → CreateTenantRequest → Action CreateTenantResponse
create_tenant v request =
    if is_empty_text (trim request.name)
    then raise (bad_request "tenant name cannot be empty")
    else do
      created ← Tenants.create_tenant v.engine (trim request.name)
      pure (record { tenant_id = created.0; name = created.1 })

-- The random generator's part is an argument.
unfoldable pub create_api_key : Services → KeyMaterial → ℕ → Action CreateApiKeyResponse
create_api_key v material tenant_id = do
  key ← of_result (generate_api_key v.argon2 material)
  Tenants.create_api_key v.engine tenant_id key.1 key.2
  pure (record { api_key = key.0; warning = "This key is shown only once. Store it securely." })

unfoldable pub tool_response : ToolRecord → ToolResponse
tool_response tool = record {
  tool_id = tool.id;
  name = tool.name;
  input_schema = tool.input_schema;
  mock_handler = tool.mock_handler;
  created_at = tool.created_at;
}

unfoldable pub create_tool : Services → HeaderMap → CreateToolRequest → Action ToolResponse
unfolding tool_response
create_tool v headers request = do
  tenant ← authenticate v.argon2 headers
  if is_empty_text (trim request.name)
      then raise (bad_request "tool name cannot be empty")
      else if not (is_object request.input_schema) || not (is_object request.mock_handler)
      then raise (bad_request "input_schema and mock_handler must be JSON objects")
      else do
        tool ←
            Tools.create_tool v.engine tenant.tenant_id (trim request.name) request.input_schema
              request.mock_handler
        pure (tool_response tool)

unfoldable pub list_tools : Services → HeaderMap → Action (List ToolResponse)
unfolding tool_response
list_tools v headers = do
  tenant ← authenticate v.argon2 headers
  tools ← Tools.list_tools v.engine tenant.tenant_id
  pure (map tool_response tools)

unfoldable pub delete_tool : Services → HeaderMap → ℕ → Action Value
delete_tool v headers tool_id = do
  tenant ← authenticate v.argon2 headers
  Tools.delete_tool v.engine tenant.tenant_id tool_id
  pure (object1 "deleted" (Json.Value.bool true))

unfoldable pub agent_response : AgentRecord → List ℕ → AgentResponse
agent_response agent tool_ids = record {
  agent_id = agent.id;
  name = agent.name;
  system_prompt = agent.system_prompt;
  tool_ids = tool_ids;
  max_iterations = agent.max_iterations;
  created_at = agent.created_at;
}

unfoldable pub create_agent : Services → HeaderMap → CreateAgentRequest → Action AgentResponse
unfolding agent_response
create_agent v headers request = do
  tenant ← authenticate v.argon2 headers
  if is_empty_text (trim request.system_prompt)
      then raise (bad_request "system_prompt cannot be empty")
      else do
        agent ←
            Agents.create_agent v.engine tenant.tenant_id (Option.map trim request.name)
              (trim request.system_prompt) request.tool_ids request.max_iterations
        tool_ids ← Agents.get_agent_tool_ids v.engine tenant.tenant_id agent.id
        pure (agent_response agent tool_ids)

unfoldable pub get_agent : Services → HeaderMap → ℕ → Action AgentResponse
unfolding agent_response
get_agent v headers agent_id = do
  tenant ← authenticate v.argon2 headers
  found ← Agents.get_agent tenant.tenant_id agent_id
  agent ← ok_or found not_found
  tool_ids ← Agents.get_agent_tool_ids v.engine tenant.tenant_id agent.id
  pure (agent_response agent tool_ids)

-- .map(str::trim).filter(|value| !value.is_empty())
abbrev pub solid : Option String → Option String
solid none = none
solid (some s) = if is_empty_text (trim s) then none else some (trim s)

abbrev pub header_text : Option HeaderValue → Option String
header_text none = none
header_text (some value) = to_str value

unfoldable pub idempotency_key_of : HeaderMap → Option String
idempotency_key_of headers = solid (header_text headers.idempotency_key)

-- The steps of `start_run` for a run that was just inserted.
unfoldable pub launch : Services → ℕ → ℕ → AppAction (Unit {0})
launch v tenant_id run_id = do
  on_db (
      Traces.append_event v.engine tenant_id run_id "run_created"
        (object1 "status" (str "pending")))
  schedule_run v tenant_id run_id

unfoldable pub start_run : Services → HeaderMap → ℕ → StartRunRequest → AppAction StartRunResponse
unfolding launch on_db
start_run v headers agent_id request = do
  tenant ← on_db (authenticate v.argon2 headers)
  found ← on_db (Agents.get_agent tenant.tenant_id agent_id)
  agent ← ok_or found not_found
  if is_empty request.messages then raise (bad_request "messages cannot be empty") else do
    created ← on_db (
        Runs.create_or_get_run v.engine tenant.tenant_id agent.id
          (v.serde.to_value request.messages) (idempotency_key_of headers))
    (if created.1 then launch v tenant.tenant_id created.0.id else pure tt)
    pure (record {
      run_id = created.0.id;
      status = if created.1 then pending else status_of_text created.0.status;
    })

unfoldable pub run_response : RunRecord → RunResponse
unfolding status_of_text
run_response run = record {
  run_id = run.id;
  agent_id = run.agent_id;
  status = status_of_text run.status;
  final_answer = run.final_answer;
  error_reason = run.error_reason;
  created_at = run.created_at;
  started_at = run.started_at;
  finished_at = run.finished_at;
}

unfoldable pub get_run : Services → HeaderMap → ℕ → Action RunResponse
unfolding run_response
get_run v headers run_id = do
  tenant ← authenticate v.argon2 headers
  found ← Runs.get_run tenant.tenant_id run_id
  run ← ok_or found not_found
  pure (run_response run)

unfoldable pub trace_response : TraceRecord → TraceEventResponse
trace_response event = record {
  seq = event.seq;
  event_type = event.event_type;
  payload = event.payload;
  created_at = event.created_at;
}

unfoldable pub get_trace : Services → HeaderMap → ℕ → Action (List TraceEventResponse)
unfolding trace_response
get_trace v headers run_id = do
  tenant ← authenticate v.argon2 headers
  traces ← Traces.get_trace v.engine tenant.tenant_id run_id
  pure (map trace_response traces)
