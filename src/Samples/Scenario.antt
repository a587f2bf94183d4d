-- ===== src/Samples/Scenario.antt =====
-- Two tenants: "acme" with a tool, an agent and a run that has just been created, "globex" with a
-- tool of its own.
use multi_tenant_agent_platf.Prelude.{ℕ, String, true, none, some, [], ◌∷◌, pos, List}
use multi_tenant_agent_platf.Json.{str, num, pos_int, object1, object2, obj, end}
use multi_tenant_agent_platf.Core.{ChatMessage}
use multi_tenant_agent_platf.Db.{Db, ApiKeyRow, ToolRow, AgentRow, RunRow, TraceRow}
use multi_tenant_agent_platf.Configuration.{Config}
use multi_tenant_agent_platf.Scheduler.{App}
use multi_tenant_agent_platf.Auth.{HeaderMap}
use multi_tenant_agent_platf.Auth.Issuing.{bearer}
use multi_tenant_agent_platf.Samples.{to_value}

abbrev pub acme_headers : HeaderMap
acme_headers = bearer "map_live_aa_s1"

abbrev pub tool_row : ℕ → ℕ → String → ToolRow
tool_row tenant_id id name = record {
  id = id;
  tenant_id = tenant_id;
  name = name;
  input_schema = obj end;
  mock_handler = object2 "type" (str "static") "response" (object1 "hits" (num (pos_int 1)));
  created_at = 2;
  deleted_at = none;
}

abbrev pub key_row : ℕ → String → String → ApiKeyRow
key_row tenant_id key_prefix key_hash = record {
  tenant_id = tenant_id;
  key_prefix = key_prefix;
  key_hash = key_hash;
  created_at = 1;
  revoked_at = none;
}

abbrev pub greeting : List ChatMessage
greeting = record { role = "user"; content = "hello" } ∷ []

abbrev pub run_row : RunRow
run_row = record {
  id = 40;
  tenant_id = 1;
  agent_id = 30;
  status = "pending";
  input_messages = to_value greeting;
  final_answer = none;
  error_reason = none;
  idempotency_key = some "k1";
  max_retries = 3;
  retry_count = 0;
  created_at = 5;
  started_at = none;
  finished_at = none;
}

abbrev pub created_event : TraceRow
created_event = record {
  tenant_id = 1;
  run_id = 40;
  seq = 1;
  event_type = "run_created";
  payload = object1 "status" (str "pending");
  created_at = 6;
}

abbrev pub agent_row : AgentRow
agent_row = record {
  id = 30;
  tenant_id = 1;
  name = some "helper";
  system_prompt = "You help.";
  max_iterations = pos 3;
  created_at = 3;
  deleted_at = none;
}

abbrev pub two_tenants : Db
two_tenants = record {
  tenants =
      record { id = 1; name = "acme"; created_at = 0 }
      ∷ record { id = 2; name = "globex"; created_at = 0 }
      ∷ [];
  api_keys = key_row 1 "aa" "argon2$map_live_aa_s1" ∷ key_row 2 "bb" "argon2$map_live_bb_s2" ∷ [];
  tools = tool_row 1 10 "search" ∷ tool_row 2 20 "search" ∷ [];
  agents = agent_row ∷ [];
  agent_tools = record { tenant_id = 1; agent_id = 30; tool_id = 10; created_at = 4 } ∷ [];
  runs = run_row ∷ [];
  run_traces = created_event ∷ [];
  ticks = 7;
}

abbrev pub config : Config
config = record {
  database_url = "postgres://localhost/platform";
  bind_addr = "127.0.0.1:3000";
  rust_log = "info";
  global_max_concurrency = 2;
  per_tenant_max_concurrency = 1;
  run_migrations = true;
}

abbrev pub server : App
server = record { config = config; db = two_tenants; global = 2; tenants = []; tasks = [] }
