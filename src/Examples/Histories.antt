-- ===== src/Examples/Histories.antt =====
-- Histories of the server: a key is issued, a run is started, and its task ends.
use multi_tenant_agent_platf.Prelude.{
  ℕ, ◌+◌, ◌≡◌, ◌≢◌, ◌≤◌, refl, arith, Bool, true, false, if◌then◌else◌, map, length, [], ◌∷◌,
}
use multi_tenant_agent_platf.Json.{obj, end}
use multi_tenant_agent_platf.Exec.{ok, err, ok_or, pure, of_result, ◌>>=◌}
use multi_tenant_agent_platf.Error.{invalid_api_key}
use multi_tenant_agent_platf.Text.{strip_prefix, split_once}
use multi_tenant_agent_platf.Auth.{authenticate, to_str, extract_key_prefix}
use multi_tenant_agent_platf.Auth.Issuing.{bearer}
use multi_tenant_agent_platf.Db.Tenants.{find_active_api_key_by_prefix}
use multi_tenant_agent_platf.Lifecycle.Forward.{Advances, Reach-Advances}
use multi_tenant_agent_platf.Tenancy.Credentials.{serve-denied}
use multi_tenant_agent_platf.Rows.{exists, select, count}
use multi_tenant_agent_platf.Db.Tools.{delete_tool, tool_from_row}
use multi_tenant_agent_platf.Db.Traces.{get_trace, trace_from_row, trace_of}
use multi_tenant_agent_platf.Runtime.Decision.{authorize_tool_call}
use multi_tenant_agent_platf.Runtime.Loop.{execute_run}
use multi_tenant_agent_platf.Http.Routes.{Request}
use multi_tenant_agent_platf.Scheduler.{App, new, schedule_run}
use multi_tenant_agent_platf.System.{Reach, here, next, request}
use multi_tenant_agent_platf.System.Permits.{IsBalanced, running_of, Reach-IsBalanced, Reach_limits}
use multi_tenant_agent_platf.System.Admission.{Reach-admission}
use multi_tenant_agent_platf.History.{events, IsNumbered, Numbered}
use multi_tenant_agent_platf.History.Numbering.{Logs}
use multi_tenant_agent_platf.History.Server.{Reach-Logs, get_trace_in_order}
use multi_tenant_agent_platf.Lifecycle.Once.{execute_run_once}
use multi_tenant_agent_platf.Idempotency.{AreKeysUnique}
use multi_tenant_agent_platf.Idempotency.Keys.{Reach-AreKeysUnique}
use multi_tenant_agent_platf.Toolbox.{AreNamesUnique}
use multi_tenant_agent_platf.Toolbox.Names.{Reach-AreNamesUnique}
use multi_tenant_agent_platf.Toolbox.Deletion.{deleted_tool_refused}
use multi_tenant_agent_platf.Samples.{services, engine}
use multi_tenant_agent_platf.Samples.Scenario.{
  acme_headers, two_tenants, server, config, greeting, created_event, tool_row,
}
use multi_tenant_agent_platf.Http.Routes.{serve}

-- Acme starts a second run.
abbrev starting : Request
starting = Request.start_run acme_headers 30 (record { messages = greeting })

abbrev started : App
started = (serve (services true) starting server).1

abbrev history : Reach (services true) server started
history = next here (request starting refl)

Reach-IsBalanced_example : IsBalanced config started
unfolding new
Reach-IsBalanced_example = Reach-IsBalanced config (services true) two_tenants history

Reach_limits_example : (length started.tasks ≤ 2) × ((t : ℕ) → running_of t started.tasks ≤ 1)
unfolding new
Reach_limits_example = Reach_limits (services true) config two_tenants started history

-- The first run that is scheduled is spawned.
Reach-admission_example :
    (schedule_run (services true) 1 40 (new config two_tenants)).1.tasks
    ≡ record { tenant_id = 1; run_id = 40 } ∷ []
unfolding new count
Reach-admission_example =
    Reach-admission (services true) config two_tenants 1 40 (new config two_tenants) here

Reach-Logs_example : Logs server.db started.db
Reach-Logs_example = Reach-Logs (services true) server started history

numbered : (b : Bool) → Numbered 0 (if b then created_event ∷ [] else [])
numbered true = (refl, tt)
numbered false = tt

two_tenants-IsNumbered : IsNumbered two_tenants
unfolding select
two_tenants-IsNumbered t r = numbered (trace_of t r created_event)

get_trace_in_order_example :
    (get_trace (engine true) 1 40 started.db).0 ≡ ok (map trace_from_row (events 1 40 started.db))
get_trace_in_order_example =
    get_trace_in_order (services true) server started 1 40 two_tenants-IsNumbered history

Reach-Advances_example : Advances two_tenants.runs started.db.runs
Reach-Advances_example = Reach-Advances (services true) server started history

-- A key of no tenant.
abbrev asking : Request
asking = Request.get_run (bearer "map_live_cc_s3") 40

serve-denied_example : serve (services true) asking server ≡ (err invalid_api_key, server)
unfolding authenticate to_str ok_or pure of_result ◌>>=◌ strip_prefix extract_key_prefix split_once
    find_active_api_key_by_prefix select
serve-denied_example =
    serve-denied (services true) asking (bearer "map_live_cc_s3") server invalid_api_key refl refl

two_tenants-AreKeysUnique : AreKeysUnique two_tenants.runs
unfolding count
two_tenants-AreKeysUnique t a key = ground arith

Reach-AreKeysUnique_example : AreKeysUnique started.db.runs
Reach-AreKeysUnique_example =
    Reach-AreKeysUnique (services true) server started two_tenants-AreKeysUnique history

two_tenants-AreNamesUnique : AreNamesUnique two_tenants.tools
unfolding count
two_tenants-AreNamesUnique t name = ground arith

Reach-AreNamesUnique_example : AreNamesUnique started.db.tools
Reach-AreNamesUnique_example =
    Reach-AreNamesUnique (services true) server started two_tenants-AreNamesUnique history

-- The run is executed, and a second task for it finds nothing to do.
abbrev executed : App
executed = record server { db = (execute_run (services true) 1 40 two_tenants).1 }

-- In between, acme asks for the run.
abbrev asked : App
asked = (serve (services true) (Request.get_run acme_headers 40) executed).1

execute_run_once_example :
    execute_run (services true) 1 40 asked.db
    ≡ (ok tt, record asked.db { ticks = asked.db.ticks + 1 })
unfolding exists
execute_run_once_example =
    execute_run_once (services true) 1 40 server asked refl
      (next here (request (Request.get_run acme_headers 40) refl))

-- Acme's tool is deleted, and made again under the same name.
abbrev without_tool : App
without_tool = record server { db = (delete_tool (engine true) 1 10 two_tenants).1 }

abbrev making : Request
making =
    Request.create_tool acme_headers
      (record { name = "search"; input_schema = obj end; mock_handler = obj end })

abbrev made_again : App
made_again = (serve (services true) making without_tool).1

deleted_tool_refused_example :
    (authorize_tool_call (engine true) 1 30 10 made_again.db).0
    ≢ ok (tool_from_row (tool_row 1 10 "search"))
unfolding delete_tool count
deleted_tool_refused_example =
    deleted_tool_refused (services true) 1 10 30 (tool_from_row (tool_row 1 10 "search")) server
      made_again refl (next here (request making refl))
