-- ===== src/Demo/Handlers.antt =====
-- The handlers of demo/src/main.rs. A program has a host, reqwest, and serde for each type of response.
use multi_tenant_agent_platf.Prelude.{
  ℕ, zero, suc, ◌+◌, ◌*◌, String, Bool, true, false, not, Option, none, some, List, leb,
  if◌then◌else◌,
}
use multi_tenant_agent_platf.Json.{Value}
use multi_tenant_agent_platf.Core.{
  RunStatus, pending, running, success, failed, CreateTenantResponse, CreateApiKeyResponse,
  ToolResponse, AgentResponse, StartRunResponse, RunResponse, TraceEventResponse,
}
use multi_tenant_agent_platf.Exec.{Result, ok, err, Exec, ok_or, ◌>>=◌}
use multi_tenant_agent_platf.Runtime.{Serde}
use multi_tenant_agent_platf.Demo.{
  Cli, Commands, TenantsSubcommand, ApiKeysSubcommand, ToolsSubcommand, AgentsSubcommand,
  RunsSubcommand,
}
use multi_tenant_agent_platf.Demo.Client.{
  Host, Reqwest, Format, ApiClient, ClientError, failed_to_read, invalid_file, unprintable,
  timed_out, request, new,
}
use multi_tenant_agent_platf.Demo.Requests.{
  Call, create_tenant_call, create_api_key_call, create_tool_call, list_tools_call,
  delete_tool_call, create_agent_call, get_agent_call, start_run_call, get_run_call, get_trace_call,
}

pub record Formats : Type 0 where
  pub serde : Serde
  pub value : Format Value
  pub tenant : Format CreateTenantResponse
  pub api_key : Format CreateApiKeyResponse
  pub tool : Format ToolResponse
  pub tools : Format (List ToolResponse)
  pub agent : Format AgentResponse
  pub started : Format StartRunResponse
  pub run : Format RunResponse
  pub trace : Format (List TraceEventResponse)

-- matches!(run.status, Pending | Running)
abbrev pub is_open : RunStatus → Bool
is_open pending = true
is_open running = true
is_open success = false
is_open failed = false

-- Duration::from_secs, in nanoseconds
abbrev pub from_secs : ℕ → ℕ
from_secs secs = secs * 1000000000

module _ {W : Type 0} (h : Host W) where
  -- std::fs::read_to_string(path), and the JSON in it
  unfoldable pub read_json_file : Format Value → String → Exec W ClientError Value
  read_json_file format path = do
    text ← λ w. let (text, w') = h.read_to_string path w in ok_or text (failed_to_read path) w'
    ok_or (format.from_str text) (invalid_file path)

  unfoldable pub print_json : {T : Type 0} → Format T → T → Exec W ClientError (Unit {0})
  print_json format value = do
    text ← ok_or (format.to_string_pretty value) unprintable
    λ w. (ok tt, h.println text w)

  -- A call of ApiClient::get, ::post or ::delete.
  unfoldable pub perform :
      {T : Type 0} → Reqwest → Format T → ApiClient → Call → Exec W ClientError T
  unfolding request
  perform q format client call =
      request q h format client call.method call.path call.api_key call.body call.idempotency_key

  -- The value that a call gives is printed.
  unfoldable pub show :
      {T : Type 0} → Reqwest → Format T → ApiClient → Call → Exec W ClientError (Unit {0})
  unfolding perform print_json
  show q format client call = do response ← perform q format client call; print_json format response

  unfoldable pub handle_tenants :
      Reqwest → Formats → ApiClient → TenantsSubcommand → Exec W ClientError (Unit {0})
  unfolding show create_tenant_call
  handle_tenants q f client (TenantsSubcommand.create name) =
      show q f.tenant client (create_tenant_call name)

  unfoldable pub handle_api_keys :
      Reqwest → Formats → ApiClient → ApiKeysSubcommand → Exec W ClientError (Unit {0})
  unfolding show create_api_key_call
  handle_api_keys q f client (ApiKeysSubcommand.create tenant_id) =
      show q f.api_key client (create_api_key_call f.serde tenant_id)

  unfoldable pub handle_tools :
      Reqwest → Formats → ApiClient → ToolsSubcommand → Exec W ClientError (Unit {0})
  unfolding show read_json_file create_tool_call list_tools_call delete_tool_call
  handle_tools q f client (ToolsSubcommand.create api_key name schema_file handler_file) = do
    input_schema ← read_json_file f.value schema_file
    mock_handler ← read_json_file f.value handler_file
    show q f.tool client (create_tool_call api_key name input_schema mock_handler)
  handle_tools q f client (ToolsSubcommand.list api_key) =
      show q f.tools client (list_tools_call api_key)
  handle_tools q f client (ToolsSubcommand.delete api_key tool_id) =
      show q f.value client (delete_tool_call f.serde api_key tool_id)

  unfoldable pub handle_agents :
      Reqwest → Formats → ApiClient → AgentsSubcommand → Exec W ClientError (Unit {0})
  unfolding show create_agent_call get_agent_call
  handle_agents q f client
        (AgentsSubcommand.create api_key name system_prompt tool_id max_iterations) =
      show q f.agent client (create_agent_call api_key name system_prompt tool_id max_iterations)
  handle_agents q f client (AgentsSubcommand.get api_key agent_id) =
      show q f.agent client (get_agent_call f.serde api_key agent_id)

  -- What a loop gives that may run out of fuel, which is `none`.
  abbrev pub Outcome : Type 0 → Type 0
  Outcome T = Option (Result ClientError T × W)

  -- One round of the loop of `wait_for_run`, given the response and the rounds after it.
  unfoldable pub polled :
      ℕ
      → ℕ
      → ℕ
      → (W → Outcome RunResponse)
      → Result ClientError RunResponse × W
      → Outcome RunResponse
  polled run_id deadline poll_secs next_round (err e, w) = some (err e, w)
  polled run_id deadline poll_secs next_round (ok run, w) =
      if not (is_open run.status)
      then some (ok run, w)
      else if leb deadline (h.now w)
      then some (err (timed_out run_id), w)
      else next_round (h.sleep (from_secs poll_secs) w)

  unfoldable pub wait_loop :
      Reqwest → Format RunResponse → ApiClient → Call → ℕ → ℕ → ℕ → ℕ → W → Outcome RunResponse
  unfolding perform polled
  wait_loop q format client call run_id deadline poll_secs zero w = none
  wait_loop q format client call run_id deadline poll_secs (suc fuel) w =
      polled run_id deadline poll_secs
        (wait_loop q format client call run_id deadline poll_secs fuel)
        (perform q format client call w)

  unfoldable pub wait_for_run :
      Reqwest → Formats → ApiClient → ℕ → String → ℕ → ℕ → ℕ → W → Outcome RunResponse
  unfolding wait_loop get_run_call
  wait_for_run q f client fuel api_key run_id timeout_secs poll_secs w =
      wait_loop q f.run client (get_run_call f.serde api_key run_id) run_id
        (h.now w + from_secs timeout_secs) poll_secs fuel w

  -- What is printed of a run that has ended.
  unfoldable pub print_waited : Format RunResponse → Outcome RunResponse → Outcome (Unit {0})
  unfolding print_json
  print_waited format none = none
  print_waited format (some (err e, w)) = some (err e, w)
  print_waited format (some (ok run, w)) = some (print_json format run w)

  unfoldable pub handle_runs :
      Reqwest → Formats → ApiClient → ℕ → RunsSubcommand → W → Outcome (Unit {0})
  unfolding show start_run_call get_run_call get_trace_call wait_for_run print_waited
  handle_runs q f client fuel
        (RunsSubcommand.start api_key agent_id message idempotency_key force_invalid_tool_call) w =
      some (
        show q f.started client
          (start_run_call f.serde api_key agent_id message idempotency_key force_invalid_tool_call)
          w)
  handle_runs q f client fuel (RunsSubcommand.get api_key run_id) w =
      some (show q f.run client (get_run_call f.serde api_key run_id) w)
  handle_runs q f client fuel (RunsSubcommand.wait api_key run_id timeout_secs poll_secs) w =
      print_waited f.run (wait_for_run q f client fuel api_key run_id timeout_secs poll_secs w)
  handle_runs q f client fuel (RunsSubcommand.trace api_key run_id) w =
      some (show q f.trace client (get_trace_call f.serde api_key run_id) w)

  -- The match of `main`.
  unfoldable pub run_command : Reqwest → Formats → ApiClient → ℕ → Commands → W → Outcome (Unit {0})
  unfolding handle_tenants handle_api_keys handle_tools handle_agents handle_runs
  run_command q f client fuel (Commands.tenants command) w =
      some (handle_tenants q f client command w)
  run_command q f client fuel (Commands.api_keys command) w =
      some (handle_api_keys q f client command w)
  run_command q f client fuel (Commands.tools command) w = some (handle_tools q f client command w)
  run_command q f client fuel (Commands.agents command) w =
      some (handle_agents q f client command w)
  run_command q f client fuel (Commands.runs command) w = handle_runs q f client fuel command w

  unfoldable pub main : Reqwest → Formats → ℕ → Cli → W → Outcome (Unit {0})
  unfolding new run_command
  main q f fuel cli w = run_command q f (new cli.base_url) fuel cli.command w
