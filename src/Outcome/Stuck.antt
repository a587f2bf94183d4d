-- ===== src/Outcome/Stuck.antt =====
-- A run that leaves the loop by `?` is not ended.
use multi_tenant_agent_platf.Prelude.{
  ℕ, suc, ◌+◌, ◌≡◌, refl, false, some, List, [], ◌∷◌, ◌++◌, arith,
}
use multi_tenant_agent_platf.Json.{is_object}
use multi_tenant_agent_platf.Core.{ChatMessage}
use multi_tenant_agent_platf.Error.{AppError}
use multi_tenant_agent_platf.Exec.{ok, err, pure, ok_or, of_result, attempt, ◌>>=◌}
use multi_tenant_agent_platf.Rows.{select, first}
use multi_tenant_agent_platf.Db.{Db, RunRow, AgentRow, TraceRow}
use multi_tenant_agent_platf.Db.Tools.{ToolRecord}
use multi_tenant_agent_platf.Db.Runs.{run_at, set_running, begin_run_execution}
use multi_tenant_agent_platf.Db.Traces.{type_allowed, new_event}
use multi_tenant_agent_platf.Runtime.{
  Services, validate_tool_arguments, execute_mock_handler, message_requests_invalid_tool_call,
}
use multi_tenant_agent_platf.Runtime.Decision.{mock_llm_decision, first_tool_call, tool_decision}
use multi_tenant_agent_platf.Runtime.Loop.{
  round, agent_loop, act, authorized, validated, run_tool, llm_call_payload, any_message,
  execute_run,
}
use multi_tenant_agent_platf.Runtime.Authorization.{authorize_tool_call-verdict}
use multi_tenant_agent_platf.Outcome.{Ready}
use multi_tenant_agent_platf.Outcome.Logging.{logged, append_event-logged}
use multi_tenant_agent_platf.Outcome.Rounds.{Allowed, call_arguments}
use multi_tenant_agent_platf.Outcome.Run.{
  Loaded, begun-found, announced, announced-Ready, execute_run-loop,
}

-- The status is the one that the row had when the run was started, and the newest event says that
-- the model decided something.
pub record IsStuck (t r : ℕ) (db : Db) : Type 0 where
  pub row : RunRow
  pub found : first (select (run_at t r) db.runs) ≡ some row
  pub still_running : row.status ≡ "running"
  pub earlier : List TraceRow
  pub event : TraceRow
  pub newest : db.run_traces ≡ earlier ++ event ∷ []
  pub is_call : event.event_type ≡ "llm_call"

-- Executing a loaded run (exactly one run has the tenant and the id and is pending, its agent is active
-- and allows at least one round, its messages decode and its events can be numbered) whose agent's first
-- tool may be called and accepts the arguments, but has a handler that gives an error (it is not static,
-- or has no response): the code returns that error, the run stays in status "running", and the newest
-- event of the log is the model's decision, with no run_end event after it. No message forces a call.
pub execute_run-IsStuck :
    (v : Services) (t r n : ℕ) (run : RunRow) (agent : AgentRow) (messages : List ChatMessage)
    (tool : ToolRecord) (bound_tools : List ToolRecord) (db : Db) (error : AppError)
    → Loaded v t r (suc n) run agent messages bound_tools db
    → any_message message_requests_invalid_tool_call messages ≡ false
    → first bound_tools ≡ some tool
    → Allowed v t agent.id tool db
    → validate_tool_arguments v.schema tool.input_schema (call_arguments 0) ≡ ok tt
    → execute_mock_handler tool.mock_handler ≡ err error
    → ((execute_run v t r db).0 ≡ err error) × IsStuck t r (execute_run v t r db).1
unfolding agent_loop round mock_llm_decision first_tool_call act authorized validated run_tool
    llm_call_payload type_allowed is_object attempt of_result ok_or pure ◌>>=◌ begin_run_execution
    set_running new_event
execute_run-IsStuck v t r n run agent messages tool bound_tools db error loaded unforced picked
      allowed valid broken =
    let payload = llm_call_payload 1 (tool_decision v tool 0) in
    let at_loop = announced v t r db in
    let room : Ready t r (n + n + 2 + 1) at_loop =
      let ready = announced-Ready v t r (suc n) run agent messages bound_tools db loaded in
      record { stored = ready.stored; room = omega (arith, ready.room) } in
    rw
      (
        execute_run-loop v t r (suc n) run agent messages bound_tools db loaded,
        unforced,
        picked,
        append_event-logged v.engine t r "llm_call" payload (n + n + 2) at_loop room refl refl,
        authorize_tool_call-verdict v.engine t agent.id tool.id
            (logged v.engine t r "llm_call" payload at_loop),
        allowed,
        valid,
        broken,
      )
      (
        refl,
        record {
          row = set_running (v.engine.now db.ticks) run;
          found = begun-found v t r db run loaded.found loaded.is_pending;
          still_running = refl;
          earlier = at_loop.run_traces;
          event = new_event v.engine t r "llm_call" payload at_loop;
          newest = refl;
          is_call = refl;
        },
      )
