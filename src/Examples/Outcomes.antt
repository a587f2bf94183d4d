-- ===== src/Examples/Outcomes.antt =====
-- The stored run of acme to its end, with three rounds.
use multi_tenant_agent_platf.Prelude.{
  String, ◌+◌, ◌≤◌, ◌≡◌, refl, ap, arith, true, some, none, List, [], ◌∷◌,
}
use multi_tenant_agent_platf.Json.{
  num, str, obj, field, end, pos_int, object1, get, get_field, is_object, as_str,
}
use multi_tenant_agent_platf.Core.{as_str as status_text, success, failed, ChatMessage, RunResponse}
use multi_tenant_agent_platf.Http
use multi_tenant_agent_platf.Outcome.Closing.{HasEnded}
use multi_tenant_agent_platf.Outcome.Completed.{execute_run-HasEnded}
use multi_tenant_agent_platf.Outcome.Observed.{get_run_final}
use multi_tenant_agent_platf.Lifecycle.Final.{Reach_final}
use multi_tenant_agent_platf.Scheduler.{App, on_db}
use multi_tenant_agent_platf.System.{Reach, here, next, request}
use multi_tenant_agent_platf.Http.Routes.{Request, serve}
use multi_tenant_agent_platf.Db.Runs.{run_at}
use multi_tenant_agent_platf.Error.{bad_request}
use multi_tenant_agent_platf.Db.{Db, ToolRow, RunRow}
use multi_tenant_agent_platf.Outcome.Stuck.{IsStuck, execute_run-IsStuck}
use multi_tenant_agent_platf.Outcome.Refused.{execute_run-refused}
use multi_tenant_agent_platf.Exec.{ok, err, ok_or, pure, of_result, ◌>>=◌}
use multi_tenant_agent_platf.Auth.{authenticate, to_str, extract_key_prefix, verify_api_key}
use multi_tenant_agent_platf.Db.Tenants.{find_active_api_key_by_prefix, key_record}
use multi_tenant_agent_platf.Rows.{select, exists, count, max_of}
use multi_tenant_agent_platf.Text.{contains, strip_prefix, split_once}
use multi_tenant_agent_platf.Db.Tools.{
  list_tools, ToolRecord, tool_from_row, join_tools, list_agent_tools,
}
use multi_tenant_agent_platf.Db.Traces.{last_seq}
use multi_tenant_agent_platf.Runtime.{
  message_requests_invalid_tool_call, validate_tool_arguments, execute_mock_handler,
}
use multi_tenant_agent_platf.Runtime.Loop.{execute_run}
use multi_tenant_agent_platf.Outcome.Counting.{calls}
use multi_tenant_agent_platf.Outcome.Calls.{execute_run-calls}
use multi_tenant_agent_platf.Outcome.{EndsAs}
use multi_tenant_agent_platf.Outcome.Rounds.{Answers}
use multi_tenant_agent_platf.Outcome.Run.{Loaded, execute_run-EndsAs}
use multi_tenant_agent_platf.Samples.{services, to_value}
use multi_tenant_agent_platf.Samples.Scenario.{
  server, acme_headers, two_tenants, run_row, agent_row, greeting, tool_row,
}

abbrev search : ToolRecord
unfolding tool_from_row
search = tool_from_row (tool_row 1 10 "search")

search-Answers : Answers (services true) search
unfolding validate_tool_arguments execute_mock_handler get get_field is_object as_str search
search-Answers = record {
  result = object1 "hits" (num (pos_int 1));
  content = "{}";
  accepts = λ k. refl;
  handled = refl;
  printed = refl;
}

two_tenants-Loaded :
    Loaded (services true) 1 40 3 run_row agent_row greeting (search ∷ []) two_tenants
unfolding count select exists last_seq max_of list_agent_tools join_tools get search tool_from_row
two_tenants-Loaded = record {
  one = refl;
  found = refl;
  is_pending = refl;
  active = refl;
  rounds_of = refl;
  decoded = refl;
  listed = refl;
  ready = record { stored = refl; room = ground arith };
}

execute_run-EndsAs_example :
    ((execute_run (services true) 1 40 two_tenants).0 ≡ ok tt)
    × EndsAs 1 40 success (execute_run (services true) 1 40 two_tenants).1
unfolding select message_requests_invalid_tool_call contains strip_prefix search tool_from_row
execute_run-EndsAs_example =
    execute_run-EndsAs (services true) 1 40 3 run_row agent_row greeting search (search ∷ [])
      two_tenants two_tenants-Loaded refl refl refl search-Answers

execute_run-HasEnded_example : HasEnded 1 40 (execute_run (services true) 1 40 two_tenants).1
unfolding count select message_requests_invalid_tool_call contains strip_prefix search tool_from_row
execute_run-HasEnded_example =
    execute_run-HasEnded (services true) 1 40 two_tenants
      (execute_run (services true) 1 40 two_tenants).1 refl
      (ap (λ x. (x, (execute_run (services true) 1 40 two_tenants).1))
        (execute_run-EndsAs (services true) 1 40 3 run_row agent_row greeting search (search ∷ [])
          two_tenants two_tenants-Loaded refl refl refl search-Answers).0)

-- The run of acme has succeeded.
abbrev ended_row : RunRow
ended_row = record run_row { status = "success"; final_answer = some "done"; finished_at = some 9 }

abbrev ended : App
ended = record server { db = record two_tenants { runs = ended_row ∷ [] } }

-- In between, acme asks for its tools.
abbrev later : App
later = (serve (services true) (Request.list_tools acme_headers) ended).1

between : Reach (services true) ended later
between = next here (request (Request.list_tools acme_headers) refl)

Reach_final_example : select (run_at 1 40) later.db.runs ≡ ended_row ∷ []
unfolding select status_text
Reach_final_example =
    Reach_final (services true) 1 40 ended_row success ended later refl tt refl between

get_run_final_example :
    (response : RunResponse) × (Http.get_run (services true) acme_headers 40 later.db
      ≡ (ok response, later.db))
    × (response.run_id ≡ 40)
    × (response.status ≡ success)
    × (response.final_answer ≡ some "done")
    × (response.error_reason ≡ none)
unfolding authenticate to_str ok_or pure of_result ◌>>=◌ strip_prefix extract_key_prefix split_once
    find_active_api_key_by_prefix select verify_api_key key_record serve on_db Http.list_tools
    list_tools status_text
get_run_final_example =
    get_run_final (services true) acme_headers 1 40 ended_row success ended later refl tt refl
      between refl

-- A tool whose handler is not static, and the agent that is bound to it.
abbrev odd_row : ToolRow
odd_row = record (tool_row 1 10 "search") { mock_handler = obj (field "type" (str "http") end) }

abbrev odd_tools : Db
odd_tools = record two_tenants { tools = odd_row ∷ [] }

abbrev odd : ToolRecord
unfolding tool_from_row
odd = tool_from_row odd_row

execute_run-IsStuck_example :
    ((execute_run (services true) 1 40 odd_tools).0
      ≡ err (bad_request "only static mock handlers are supported"))
    × IsStuck 1 40 (execute_run (services true) 1 40 odd_tools).1
unfolding count select exists last_seq max_of list_agent_tools join_tools get get_field is_object
    as_str odd tool_from_row message_requests_invalid_tool_call contains strip_prefix
    validate_tool_arguments execute_mock_handler
execute_run-IsStuck_example =
    execute_run-IsStuck (services true) 1 40 2 run_row agent_row greeting odd (odd ∷ []) odd_tools
      (bad_request "only static mock handlers are supported")
      (record {
        one = refl;
        found = refl;
        is_pending = refl;
        active = refl;
        rounds_of = refl;
        decoded = refl;
        listed = refl;
        ready = record { stored = refl; room = ground arith };
      })
      refl refl refl refl refl

-- A run whose message asks for an invalid call.
abbrev trick : List ChatMessage
trick = record { role = "user"; content = "do __force_invalid_tool_call__ now" } ∷ []

abbrev trick_row : RunRow
trick_row = record run_row { input_messages = to_value trick }

abbrev tricked : Db
tricked = record two_tenants { runs = trick_row ∷ [] }

execute_run-refused_example :
    (reason : String) × ((execute_run (services true) 1 40 tricked).0 ≡ err (bad_request reason))
    × EndsAs 1 40 failed (execute_run (services true) 1 40 tricked).1
unfolding count select exists last_seq max_of list_agent_tools join_tools get search tool_from_row
    message_requests_invalid_tool_call contains strip_prefix
execute_run-refused_example =
    execute_run-refused (services true) 1 40 2 trick_row agent_row trick (search ∷ []) tricked
      (record {
        one = refl;
        found = refl;
        is_pending = refl;
        active = refl;
        rounds_of = refl;
        decoded = refl;
        listed = refl;
        ready = record { stored = refl; room = ground arith };
      })
      refl refl

execute_run-calls_example :
    calls (execute_run (services true) 1 40 two_tenants).1 ≤ calls two_tenants + 3
unfolding select
execute_run-calls_example =
    execute_run-calls (services true) 1 40 3 two_tenants (run_row, refl, agent_row, refl, refl)
