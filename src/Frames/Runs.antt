-- ===== src/Frames/Runs.antt =====
-- A run of one tenant, from its start to its end.
use multi_tenant_agent_platf.Prelude.{
  ℕ, zero, suc, ◌+◌, String, Bool, Option, none, some, List, [], ◌∷◌, ◌++◌, ◌&&◌, ◌||◌, not,
}
use multi_tenant_agent_platf.Json.{Value}
use multi_tenant_agent_platf.Core.{ChatMessage, success}
use multi_tenant_agent_platf.Error.{AppError}
use multi_tenant_agent_platf.Exec.{Result, ok, err}
use multi_tenant_agent_platf.Exec.Moves.{
  Moves, IsPreorder, Moves-bind, Moves-pure, Moves-raise, Moves-of_result, Moves-ok_or, Moves-if,
  Moves-attempt,
}
use multi_tenant_agent_platf.Db.{Db, Action}
use multi_tenant_agent_platf.Db.Tools.{ToolRecord}
use multi_tenant_agent_platf.Runtime.{Services}
use multi_tenant_agent_platf.Runtime.Decision.{
  LlmDecisionKind, final_answer, tool_call, forced_call, first_tool_call, mock_llm_decision,
  authorize_found, authorize_tool_call,
}
use multi_tenant_agent_platf.Runtime.Loop.{
  fail_run, fail_with, succeed, run_tool, validated, authorized, act, round, go_on, agent_loop,
  run_agent, run_if_started, execute_run,
}
use multi_tenant_agent_platf.Scheduler.{fail_run_before_start}
use multi_tenant_agent_platf.Frames.{IsFinal, RunWrites, reads}

ruleset rules = (
  reads, Moves-bind, Moves-pure, Moves-raise, Moves-of_result, Moves-ok_or, Moves-if, Moves-attempt,
)

final : IsFinal success
final = tt

module _ {R : Db → Db → Type 0} (o : IsPreorder R) (a : ℕ) (v : Services) (run_id : ℕ)
    (w : RunWrites R v.engine a run_id) where
  fail_run-Moves : (reason : String) → Moves R (fail_run v.engine a run_id reason)
  unfolding fail_run
  fail_run-Moves reason = search (rules, w.event, w.finish, final)

  fail_with-Moves :
      {A : Type 0} (error : AppError) → Moves R (fail_with {A = A} v.engine a run_id error)
  unfolding fail_with
  fail_with-Moves error = search (rules, fail_run-Moves)

  succeed-Moves : (answer : String) → Moves R (succeed v.engine a run_id answer)
  unfolding succeed
  succeed-Moves answer = search (rules, w.event, w.finish, final)

  run_tool-Moves :
      (tool : ToolRecord) (arguments : Value) → Moves R (run_tool v a run_id tool arguments)
  unfolding run_tool
  run_tool-Moves tool arguments = search (rules, w.event)

  validated-Moves :
      (tool : ToolRecord) (arguments : Value) (r : Result AppError (Unit {0}))
      → Moves R (validated v a run_id tool arguments r)
  unfolding validated
  validated-Moves tool arguments (ok _) = run_tool-Moves tool arguments
  validated-Moves tool arguments (err error) = fail_with-Moves error

  authorized-Moves :
      (arguments : Value) (r : Result AppError ToolRecord)
      → Moves R (authorized v a run_id arguments r)
  unfolding authorized
  authorized-Moves arguments (ok tool) = validated-Moves tool arguments _
  authorized-Moves arguments (err error) = fail_with-Moves error

  authorize_found-Moves :
      (agent_id tool_id : ℕ) (tool : ToolRecord)
      → Moves R (authorize_found v.engine a agent_id tool_id tool)
  unfolding authorize_found
  authorize_found-Moves agent_id tool_id tool = search (rules)

  pub authorize_tool_call-Moves :
      (agent_id tool_id : ℕ) → Moves R (authorize_tool_call v.engine a agent_id tool_id)
  unfolding authorize_tool_call
  authorize_tool_call-Moves agent_id tool_id = search (rules, authorize_found-Moves)

  act-Moves : (agent_id : ℕ) (kind : LlmDecisionKind) → Moves R (act v a run_id agent_id kind)
  unfolding act
  act-Moves agent_id (final_answer answer) = search (rules, succeed-Moves)
  act-Moves agent_id (tool_call tool_id arguments) =
      search (rules, authorize_tool_call-Moves, authorized-Moves)

  pub mock_llm_decision-Moves :
      (agent_id : ℕ) (bound : List ToolRecord) (count : ℕ) (force : Bool)
      → Moves R (mock_llm_decision v a agent_id bound count force)
  unfolding mock_llm_decision forced_call first_tool_call
  mock_llm_decision-Moves agent_id bound count force = search (rules)

  pub round-Moves :
      (agent_id : ℕ) (bound : List ToolRecord) (iteration count : ℕ) (force : Bool)
      → Moves R (round v a run_id agent_id bound iteration count force)
  unfolding round
  round-Moves agent_id bound iteration count force =
      search (rules, mock_llm_decision-Moves, w.event, act-Moves)

  go_on-Moves :
      (next : Option ChatMessage) (k : ChatMessage → Action (Unit {0}))
      → ((m : ChatMessage) → Moves R (k m))
      → Moves R (go_on next k)
  unfolding go_on
  go_on-Moves none k h = Moves-pure o tt
  go_on-Moves (some message) k h = h message

  pub agent_loop-Moves :
      (agent_id : ℕ) (bound : List ToolRecord) (force : Bool) (left iteration count : ℕ)
      (consumed : Bool) (messages : List ChatMessage)
      → Moves R (agent_loop v a run_id agent_id bound force left iteration count consumed messages)
  unfolding agent_loop
  agent_loop-Moves agent_id bound force zero iteration count consumed messages = fail_run-Moves _
  agent_loop-Moves agent_id bound force (suc left) iteration count consumed messages =
      Moves-bind o _ _ (round-Moves agent_id bound iteration count (force && not consumed)) λ next.
        go_on-Moves next _ λ message.
          agent_loop-Moves agent_id bound force left (iteration + 1) (count + 1) (consumed || force)
            (messages ++ message ∷ [])

  pub run_agent-Moves : Moves R (run_agent v a run_id)
  unfolding run_agent
  run_agent-Moves = search (rules, agent_loop-Moves) depth 20

  pub run_if_started-Moves : (can_start : Bool) → Moves R (run_if_started v a run_id can_start)
  unfolding run_if_started
  run_if_started-Moves can_start = search (rules, w.event, run_agent-Moves) depth 10

  pub execute_run-Moves : Moves R (execute_run v a run_id)
  unfolding execute_run
  execute_run-Moves = search (rules, w.start, run_if_started-Moves)

  pub fail_run_before_start-Moves :
      (reason : String) (payload : Value)
      → Moves R (fail_run_before_start v.engine a run_id reason payload)
  unfolding fail_run_before_start
  fail_run_before_start-Moves reason payload = search (rules, w.event, w.failure) depth 8
