-- ===== src/Http/Routes.antt =====
-- The routes of server/src/app.rs: a request that has reached its handler, with what axum has taken
-- from the path, the headers and the body, and the handler's result as a response.
use multi_tenant_agent_platf.Prelude.{ℕ, List}
use multi_tenant_agent_platf.Json.{Value, str, object1}
use multi_tenant_agent_platf.Core.{
  CreateTenantRequest, CreateTenantResponse, CreateApiKeyResponse, CreateToolRequest, ToolResponse,
  CreateAgentRequest, AgentResponse, StartRunRequest, StartRunResponse, RunResponse,
  TraceEventResponse,
}
use multi_tenant_agent_platf.Exec.{pure, ◌>>=◌}
use multi_tenant_agent_platf.Auth.{HeaderMap, KeyMaterial}
use multi_tenant_agent_platf.Runtime.{Services}
use multi_tenant_agent_platf.Scheduler.{AppAction, on_db}
use multi_tenant_agent_platf.Http

pub data Request : Type 0 where
  healthz : Request
  create_tenant : CreateTenantRequest → Request
  create_api_key : KeyMaterial → ℕ → Request
  create_tool : HeaderMap → CreateToolRequest → Request
  list_tools : HeaderMap → Request
  delete_tool : HeaderMap → ℕ → Request
  create_agent : HeaderMap → CreateAgentRequest → Request
  get_agent : HeaderMap → ℕ → Request
  start_run : HeaderMap → ℕ → StartRunRequest → Request
  get_run : HeaderMap → ℕ → Request
  get_trace : HeaderMap → ℕ → Request

pub data Response : Type 0 where
  json : Value → Response
  tenant : CreateTenantResponse → Response
  api_key : CreateApiKeyResponse → Response
  tool : ToolResponse → Response
  tools : List ToolResponse → Response
  agent : AgentResponse → Response
  started : StartRunResponse → Response
  run : RunResponse → Response
  trace : List TraceEventResponse → Response

unfoldable pub serve : Services → Request → AppAction Response
unfolding on_db
serve v healthz = pure (json (object1 "status" (str "ok")))
serve v (create_tenant request) = do r ← on_db (Http.create_tenant v request); pure (tenant r)
serve v (create_api_key material tenant_id) = do
  r ← on_db (Http.create_api_key v material tenant_id)
  pure (api_key r)
serve v (create_tool headers request) = do
  r ← on_db (Http.create_tool v headers request)
  pure (tool r)
serve v (list_tools headers) = do r ← on_db (Http.list_tools v headers); pure (tools r)
serve v (delete_tool headers tool_id) = do
  r ← on_db (Http.delete_tool v headers tool_id)
  pure (json r)
serve v (create_agent headers request) = do
  r ← on_db (Http.create_agent v headers request)
  pure (agent r)
serve v (get_agent headers agent_id) = do
  r ← on_db (Http.get_agent v headers agent_id)
  pure (agent r)
serve v (start_run headers agent_id request) = do
  r ← Http.start_run v headers agent_id request
  pure (started r)
serve v (get_run headers run_id) = do r ← on_db (Http.get_run v headers run_id); pure (run r)
serve v (get_trace headers run_id) = do r ← on_db (Http.get_trace v headers run_id); pure (trace r)
