-- ===== src/Outcome/Rounds.antt =====
-- One round of the agent loop, for an agent whose first tool can be called.
use multi_tenant_agent_platf.Prelude.{ℕ, ◌+◌, ◌≡◌, refl, String, true, false, none, some, List, ltb}
use multi_tenant_agent_platf.Json.{Value, str, object1, is_object}
use multi_tenant_agent_platf.Text.{join, decimal}
use multi_tenant_agent_platf.Core.{success}
use multi_tenant_agent_platf.Exec.{ok, pure, ok_or, of_result, attempt, ◌>>=◌}
use multi_tenant_agent_platf.Rows.{select, first}
use multi_tenant_agent_platf.Db.{Db}
use multi_tenant_agent_platf.Db.Tools.{ToolRecord, tool_at}
use multi_tenant_agent_platf.Db.Traces.{type_allowed}
use multi_tenant_agent_platf.Runtime.{Services, validate_tool_arguments, execute_mock_handler}
use multi_tenant_agent_platf.Runtime.Decision.{
  mock_llm_decision, first_tool_call, tool_decision, final_decision, contains,
}
use multi_tenant_agent_platf.Runtime.Loop.{
  round, act, authorized, validated, run_tool, tool_exec_payload, llm_call_payload,
}
use multi_tenant_agent_platf.Runtime.Authorization.{verdict, bound_ids, authorize_tool_call-verdict}
use multi_tenant_agent_platf.Outcome.{Ready, EndsAs}
use multi_tenant_agent_platf.Outcome.Logging.{logged, append_event-logged, logged-Ready}
use multi_tenant_agent_platf.Outcome.Ending.{succeed-EndsAs}

-- The arguments of the k-th call.
abbrev pub call_arguments : ℕ → Value
call_arguments k = object1 "query" (str (join "iteration-" (decimal k)))

-- A tool that accepts the calls that the mock model makes, with its static result and its text.
pub record Answers (v : Services) (tool : ToolRecord) : Type 0 where
  pub result : Value
  pub content : String
  pub accepts :
      (k : ℕ) → validate_tool_arguments v.schema tool.input_schema (call_arguments k) ≡ ok tt
  pub handled : execute_mock_handler tool.mock_handler ≡ ok result
  pub printed : v.serde.to_string result ≡ some content

-- The tenant has the tool, it is not deleted and it is bound to the agent.
abbrev pub Allowed : Services → ℕ → ℕ → ToolRecord → Db → Type 0
Allowed v t agent_id tool db =
    verdict (first (select (tool_at t tool.id) db.tools))
      (contains (bound_ids v.engine t agent_id db) tool.id)
    ≡ ok tool

module _ (v : Services) (t r agent_id iteration count : ℕ) (bound_tools : List ToolRecord)
    (tool : ToolRecord) (picked : first bound_tools ≡ some tool) (answers : Answers v tool)
    (db : Db) where
  abbrev called : Db
  called =
      logged v.engine t r "llm_call" (llm_call_payload iteration (tool_decision v tool count)) db

  -- The database after a round that calls the tool.
  abbrev pub after_tool : Db
  after_tool =
      logged v.engine t r "tool_exec"
        (tool_exec_payload v tool (call_arguments count) answers.result) called

  called-Ready : (n : ℕ) → Ready t r (n + 1) db → Ready t r n called
  unfolding type_allowed llm_call_payload is_object
  called-Ready n ready = logged-Ready v.engine t r "llm_call" _ n db ready refl refl

  pub after_tool-Ready : (n : ℕ) → Ready t r (n + 1 + 1) db → Ready t r n after_tool
  unfolding type_allowed tool_exec_payload is_object
  after_tool-Ready n ready =
      logged-Ready v.engine t r "tool_exec" _ n called (called-Ready (n + 1) ready) refl refl

  -- With fewer than two results, the round calls the tool and logs the decision and the call.
  pub round-tool :
      (n : ℕ)
      → Ready t r (n + 1 + 1) db
      → Allowed v t agent_id tool db
      → ltb count 2 ≡ true
      → round v t r agent_id bound_tools iteration count false db
        ≡ (ok (some (record { role = "tool"; content = answers.content })), after_tool)
  unfolding round mock_llm_decision first_tool_call tool_decision act authorized validated run_tool
      tool_exec_payload llm_call_payload type_allowed is_object attempt of_result ok_or pure ◌>>=◌
  round-tool n ready allowed few =
      rw
        (
          few,
          picked,
          append_event-logged v.engine t r "llm_call"
              (llm_call_payload iteration (tool_decision v tool count)) (n + 1) db ready refl refl,
          authorize_tool_call-verdict v.engine t agent_id tool.id called,
          allowed,
          answers.accepts count,
          answers.handled,
          append_event-logged v.engine t r "tool_exec"
              (tool_exec_payload v tool (call_arguments count) answers.result) n called
              (called-Ready (n + 1) ready) refl refl,
          answers.printed,
        )
        refl

-- With two results, the round logs the decision and the run succeeds.
pub round-final :
    (v : Services) (t r agent_id iteration count : ℕ) (bound_tools : List ToolRecord) (db : Db)
    → Ready t r 2 db
    → ltb count 2 ≡ false
    → ((round v t r agent_id bound_tools iteration count false db).0 ≡ ok none)
      × EndsAs t r success (round v t r agent_id bound_tools iteration count false db).1
unfolding round mock_llm_decision final_decision act llm_call_payload type_allowed is_object pure
    ◌>>=◌
round-final v t r agent_id iteration count bound_tools db ready enough =
    let payload = llm_call_payload iteration final_decision in
    let called = logged v.engine t r "llm_call" payload db in
    let (done, ends) =
      succeed-EndsAs v.engine t r "Deterministic mock final answer." called
        (logged-Ready v.engine t r "llm_call" payload 1 db ready refl refl) in
    rw (enough, append_event-logged v.engine t r "llm_call" payload 1 db ready refl refl, done)
      (refl, ends)
