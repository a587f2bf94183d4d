-- ===== src/Runtime/Loop.antt =====
-- server/src/runtime.rs: the agent loop, and the run around it. A round of the loop is a function
-- of its own: its result is the message to go on with, or `none` where the code returns Ok(()).
use multi_tenant_agent_platf.Prelude.{
  String, Bool, false, ◌&&◌, ◌||◌, Option, none, some, if◌then◌else◌, not, ℕ, zero, suc, ◌+◌, List,
  [], ◌∷◌, ◌++◌, ℤ, pos, negsuc,
}
use multi_tenant_agent_platf.Json.{Value, str, num, pos_int, obj, field, end, object1, object2}
use multi_tenant_agent_platf.Core.{ChatMessage, success, failed}
use multi_tenant_agent_platf.Error.{AppError, not_found, serde_json}
use multi_tenant_agent_platf.Exec.{
  Result, ok, err, pure, raise, ok_or, of_result, attempt, ◌>>=◌, ◌>>◌,
}
use multi_tenant_agent_platf.Db.{Engine, Action}
use multi_tenant_agent_platf.Db.Tools.{ToolRecord, list_agent_tools}
use multi_tenant_agent_platf.Db.Agents.{get_agent}
use multi_tenant_agent_platf.Db.Runs.{begin_run_execution, get_run, finalize_run}
use multi_tenant_agent_platf.Db.Traces.{append_event}
use multi_tenant_agent_platf.Runtime.{
  Services, message_requests_invalid_tool_call, validate_tool_arguments, normalize_error_reason,
  execute_mock_handler,
}
use multi_tenant_agent_platf.Runtime.Decision.{
  LlmDecision, LlmDecisionKind, final_answer, tool_call, mock_llm_decision, authorize_tool_call,
}

-- finalize_run as failed, and the run_end event.
unfoldable pub fail_run : Engine → ℕ → ℕ → String → Action (Unit {0})
fail_run e tenant_id run_id reason = do
  finalize_run e tenant_id run_id failed none (some reason)
  append_event e tenant_id run_id "run_end"
      (object2 "status" (str "failed") "error_reason" (str reason))

-- The two arms that finalize the run and return the error.
unfoldable pub fail_with : {A : Type 0} → Engine → ℕ → ℕ → AppError → Action A
unfolding fail_run
fail_with e tenant_id run_id error = do
  fail_run e tenant_id run_id (normalize_error_reason error)
  raise error

-- The arm for a final answer.
unfoldable pub succeed : Engine → ℕ → ℕ → String → Action (Unit {0})
succeed e tenant_id run_id answer = do
  finalize_run e tenant_id run_id success (some answer) none
  append_event e tenant_id run_id "run_end"
      (object2 "status" (str "success") "final_answer" (str answer))

unfoldable pub tool_exec_payload : Services → ToolRecord → Value → Value → Value
tool_exec_payload v tool arguments result = obj (
    field "tool_id" (str (v.serde.uuid_text tool.id))
      (field "tool_name" (str tool.name) (field "arguments" arguments (field "result" result end))))

-- The arm for a tool call, after its authorization and the validation of its arguments.
unfoldable pub run_tool : Services → ℕ → ℕ → ToolRecord → Value → Action (Option ChatMessage)
unfolding tool_exec_payload
run_tool v tenant_id run_id tool arguments = do
  result ← of_result (execute_mock_handler tool.mock_handler)
  append_event v.engine tenant_id run_id "tool_exec" (tool_exec_payload v tool arguments result)
  content ← ok_or (v.serde.to_string result) serde_json
  pure (some (record { role = "tool"; content = content }))

unfoldable pub validated :
    Services → ℕ → ℕ → ToolRecord → Value → Result AppError (Unit {0}) → Action (Option ChatMessage)
unfolding run_tool fail_with
validated v tenant_id run_id tool arguments (ok _) = run_tool v tenant_id run_id tool arguments
validated v tenant_id run_id tool arguments (err error) = fail_with v.engine tenant_id run_id error

unfoldable pub authorized :
    Services → ℕ → ℕ → Value → Result AppError ToolRecord → Action (Option ChatMessage)
unfolding validated fail_with
authorized v tenant_id run_id arguments (ok tool) =
    validated v tenant_id run_id tool arguments
      (validate_tool_arguments v.schema tool.input_schema arguments)
authorized v tenant_id run_id arguments (err error) = fail_with v.engine tenant_id run_id error

-- The match on `llm_decision.kind`.
unfoldable pub act : Services → ℕ → ℕ → ℕ → LlmDecisionKind → Action (Option ChatMessage)
unfolding succeed authorized
act v tenant_id run_id agent_id (final_answer answer) = do
  succeed v.engine tenant_id run_id answer
  pure none
act v tenant_id run_id agent_id (tool_call tool_id arguments) = do
  tool ← attempt (authorize_tool_call v.engine tenant_id agent_id tool_id)
  authorized v tenant_id run_id arguments tool

unfoldable pub llm_call_payload : ℕ → LlmDecision → Value
llm_call_payload iteration decision =
    object2 "iteration" (num (pos_int iteration)) "decision" decision.trace_payload

unfoldable pub round :
    Services → ℕ → ℕ → ℕ → List ToolRecord → ℕ → ℕ → Bool → Action (Option ChatMessage)
unfolding act llm_call_payload
round v tenant_id run_id agent_id bound_tools iteration tool_result_count force = do
  decision ← mock_llm_decision v tenant_id agent_id bound_tools tool_result_count force
  append_event v.engine tenant_id run_id "llm_call" (llm_call_payload iteration decision)
  act v tenant_id run_id agent_id decision.kind

-- The loop returns, or goes on with the tool's message.
unfoldable pub go_on : Option ChatMessage → (ChatMessage → Action (Unit {0})) → Action (Unit {0})
go_on none next_round = pure tt
go_on (some message) next_round = next_round message

-- `for iteration in 1..=agent.max_iterations` with the code after the loop; the first number is the
-- count of rounds left.
unfoldable pub agent_loop :
    Services
    → ℕ
    → ℕ
    → ℕ
    → List ToolRecord
    → Bool
    → ℕ
    → ℕ
    → ℕ
    → Bool
    → List ChatMessage
    → Action (Unit {0})
unfolding fail_run go_on
agent_loop v tenant_id run_id agent_id bound_tools force zero iteration count consumed messages =
    fail_run v.engine tenant_id run_id "max_iterations_exceeded"
agent_loop v tenant_id run_id agent_id bound_tools force (suc left) iteration count consumed
      messages =
    do
      next ← round v tenant_id run_id agent_id bound_tools iteration count (force && not consumed)
      go_on next λ message.
          agent_loop v tenant_id run_id agent_id bound_tools force left (iteration + 1) (count + 1)
            (consumed || force) (messages ++ message ∷ [])

-- The number of values of 1..=n
abbrev pub rounds : ℤ → ℕ
rounds (pos n) = n
rounds (negsuc n) = 0

abbrev pub any_message : (ChatMessage → Bool) → List ChatMessage → Bool
any_message p [] = false
any_message p (m ∷ ms) = p m || any_message p ms

-- From the loading of the run to the end of the loop.
unfoldable pub run_agent : Services → ℕ → ℕ → Action (Unit {0})
unfolding agent_loop
run_agent v tenant_id run_id = do
  found_run ← get_run tenant_id run_id
  run ← ok_or found_run not_found
  found_agent ← get_agent tenant_id run.agent_id
  agent ← ok_or found_agent not_found
  bound_tools ← list_agent_tools v.engine tenant_id agent.id
  messages ← ok_or (v.serde.from_value run.input_messages) serde_json
  agent_loop v tenant_id run_id agent.id bound_tools
      (any_message message_requests_invalid_tool_call messages) (rounds agent.max_iterations) 1 0
      false messages

-- The code after `begin_run_execution`.
unfoldable pub run_if_started : Services → ℕ → ℕ → Bool → Action (Unit {0})
unfolding run_agent
run_if_started v tenant_id run_id can_start = if not can_start then pure tt else do
  append_event v.engine tenant_id run_id "scheduler_decision" (object1 "decision" (str "accepted"))
  append_event v.engine tenant_id run_id "run_started" (object1 "status" (str "running"))
  run_agent v tenant_id run_id

unfoldable pub execute_run : Services → ℕ → ℕ → Action (Unit {0})
unfolding run_if_started
execute_run v tenant_id run_id = do
  can_start ← begin_run_execution v.engine tenant_id run_id
  run_if_started v tenant_id run_id can_start
