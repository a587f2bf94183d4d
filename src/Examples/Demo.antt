-- ===== src/Examples/Demo.antt =====
-- The demo client at concrete values: a world that is its clock, and a run that ends after a second.
use multi_tenant_agent_platf.Prelude.{
  ℕ, ◌+◌, ◌≡◌, refl, arith, String, true, Option, none, some, leb, if◌then◌else◌, [], ◌∷◌, pos,
}
use multi_tenant_agent_platf.Json.{obj, end}
use multi_tenant_agent_platf.Core.{RunStatus, RunResponse, CreateApiKeyResponse}
use multi_tenant_agent_platf.Core.Status.{status_of_text}
use multi_tenant_agent_platf.Exec.{ok, Result}
use multi_tenant_agent_platf.Auth.{HeaderMap, HeaderValue, visible, opaque, KeyMaterial, to_str}
use multi_tenant_agent_platf.Runtime.{message_requests_invalid_tool_call}
use multi_tenant_agent_platf.Runtime.Loop.{any_message}
use multi_tenant_agent_platf.Http.Routes
use multi_tenant_agent_platf.Demo.Client.{Host, Reqwest, Format, ApiClient, HttpResponse}
use multi_tenant_agent_platf.Demo.Requests.{
  Call, create_tenant_call, create_api_key_call, create_tool_call, list_tools_call,
  delete_tool_call, create_agent_call, get_agent_call, start_request, start_run_call, get_run_call,
  get_trace_call,
}
use multi_tenant_agent_platf.Demo.Delivery.{delivered}
use multi_tenant_agent_platf.Http.Router.{Rejection}
use multi_tenant_agent_platf.Http.Routes.{Request, serve}
use multi_tenant_agent_platf.Demo.Handlers.{Formats, wait_for_run, from_secs}
use multi_tenant_agent_platf.Demo.Waiting.{IsWaited, wait_for_run-IsWaited}
use multi_tenant_agent_platf.Demo.Session.{start_request-forced}
use multi_tenant_agent_platf.Demo.Agreement.{delivered-calls}
use multi_tenant_agent_platf.Db.Tenants.{create_api_key}
use multi_tenant_agent_platf.Http
use multi_tenant_agent_platf.Scheduler.{App}
use multi_tenant_agent_platf.Db.Tools
use multi_tenant_agent_platf.Samples.{services}
use multi_tenant_agent_platf.Samples.Scenario.{server}
use multi_tenant_agent_platf.Samples.Wire.{client_serde, axum, wire}

abbrev answer : ℕ → HttpResponse
answer w = record { status = 200; text = some (if leb 1000000000 w then "success" else "running") }

abbrev host : Host ℕ
host = record {
  send = λ request w. (some (answer w), w + 1);
  read_to_string = λ path w. (none, w);
  println = λ text w. w;
  now = λ w. w;
  sleep = λ duration w. w + duration;
  send-now = λ request w. omega arith;
  sleep-now = λ duration w. omega arith;
}

text_of-visible :
    (s : String) (value : HeaderValue)
    → ◌≡◌ {A = Option HeaderValue} (some (visible s)) (some value)
    → to_str value ≡ some s
unfolding to_str
text_of-visible s (visible u) e = ground (arith, e)
text_of-visible s opaque e = absurd (ground (arith, e))

abbrev reqwest : Reqwest
reqwest = record {
  header_value = λ s. some (visible s);
  header_value-to_str = λ s value ascii e. text_of-visible s value e;
}

abbrev silent : {T : Type 0} → Format T
silent = record { from_str = λ text. none; to_string_pretty = λ value. none }

abbrev run_of : RunStatus → RunResponse
run_of status = record {
  run_id = 40;
  agent_id = 30;
  status = status;
  final_answer = none;
  error_reason = none;
  created_at = 5;
  started_at = some 6;
  finished_at = none;
}

abbrev formats : Formats
formats = record {
  serde = client_serde;
  value = silent;
  tenant = silent;
  api_key = silent;
  tool = silent;
  tools = silent;
  agent = silent;
  started = silent;
  run = record {
    from_str = λ text. some (run_of (status_of_text text));
    to_string_pretty = λ run. none;
  };
  trace = silent;
}

abbrev client : ApiClient
client = record { base_url = "http://127.0.0.1:3000" }

wait_for_run-IsWaited_example :
    IsWaited host 40
      (from_secs 3)
      (wait_for_run host reqwest formats client 4 "map_live_aa_s1" 40 3 1 0)
wait_for_run-IsWaited_example =
    wait_for_run-IsWaited host reqwest formats client "map_live_aa_s1" 40 3 1 0 (omega arith)

start_request-forced_example :
    any_message message_requests_invalid_tool_call (start_request "hello" true).messages ≡ true
start_request-forced_example = start_request-forced "hello" true

abbrev material : KeyMaterial
material = record { prefix = "Qx7"; secret = "s_9"; salt = "na" }

abbrev issued : CreateApiKeyResponse
issued = record {
  api_key = "map_live_qx7_s_9";
  warning = "This key is shown only once. Store it securely.";
}

-- The server once globex has its second key.
abbrev keyed_server : App
keyed_server = (serve (services true) (Routes.create_api_key material 2) server).1

abbrev deliver : Call → Option (Result Rejection Request)
deliver = delivered reqwest axum material client

abbrev keyed : HeaderMap
keyed = record { authorization = some (visible "Bearer map_live_aa_s1"); idempotency_key = none }

delivered-calls_example :
    (deliver (create_tenant_call "n") ≡ some (ok (Routes.create_tenant (record { name = "n" }))))
    × (deliver (create_api_key_call client_serde 7) ≡ some (ok (Routes.create_api_key material 7)))
    × (deliver (create_tool_call "map_live_aa_s1" "n" (obj end) (obj end))
        ≡ some (
            ok (
              Routes.create_tool keyed
                (record { name = "n"; input_schema = obj end; mock_handler = obj end }))))
    × (deliver (list_tools_call "map_live_aa_s1") ≡ some (ok (Routes.list_tools keyed)))
    × (deliver (delete_tool_call client_serde "map_live_aa_s1" 7)
        ≡ some (ok (Routes.delete_tool keyed 7)))
    × (deliver (create_agent_call "map_live_aa_s1" none "n" (10 ∷ []) (pos 5))
        ≡ some (
            ok (
              Routes.create_agent keyed (record {
                name = none;
                system_prompt = "n";
                tool_ids = 10 ∷ [];
                max_iterations = pos 5;
              }))))
    × (deliver (get_agent_call client_serde "map_live_aa_s1" 7)
        ≡ some (ok (Routes.get_agent keyed 7)))
    × (deliver (start_run_call client_serde "map_live_aa_s1" 7 "n" (some "k1") true)
        ≡ some (
            ok (
              Routes.start_run
                (record {
                  authorization = some (visible "Bearer map_live_aa_s1");
                  idempotency_key = some (visible "k1");
                })
                7
                (start_request "n" true))))
    × (deliver (get_run_call client_serde "map_live_aa_s1" 7) ≡ some (ok (Routes.get_run keyed 7)))
    × (deliver (get_trace_call client_serde "map_live_aa_s1" 7)
        ≡ some (ok (Routes.get_trace keyed 7)))
delivered-calls_example =
    delivered-calls client_serde axum wire reqwest material client "map_live_aa_s1" (some "k1")
      (visible "Bearer map_live_aa_s1") (some (visible "k1")) 7 "n" (obj end) (obj end) none
      (10 ∷ []) (pos 5) true refl refl
