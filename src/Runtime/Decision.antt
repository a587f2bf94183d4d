-- ===== src/Runtime/Decision.antt =====
-- server/src/runtime.rs: what the mock model decides, and which tool calls are allowed.
use multi_tenant_agent_platf.Prelude.{
  String, Bool, true, false, ◌||◌, Option, none, some, if◌then◌else◌, not, ℕ, List, [], ◌∷◌, ◌==◌,
  ltb, is_some,
}
use multi_tenant_agent_platf.Json
use multi_tenant_agent_platf.Json.{Value, str, object1, object2, object3}
use multi_tenant_agent_platf.Text.{join, decimal}
use multi_tenant_agent_platf.Error.{internal, bad_request}
use multi_tenant_agent_platf.Exec.{pure, raise, ok_or, ◌>>=◌}
use multi_tenant_agent_platf.Rows.{first}
use multi_tenant_agent_platf.Db.{Engine, Action}
use multi_tenant_agent_platf.Db.Tools.{ToolRecord, find_unbound_active_tool, get_tool}
use multi_tenant_agent_platf.Db.Agents.{get_agent_tool_ids}
use multi_tenant_agent_platf.Runtime.{Services}

pub data LlmDecisionKind : Type 0 where
  final_answer : String → LlmDecisionKind
  tool_call : ℕ → Value → LlmDecisionKind

pub record LlmDecision : Type 0 where
  pub kind : LlmDecisionKind
  pub trace_payload : Value

-- Uuid::nil()
abbrev pub nil_uuid : ℕ
nil_uuid = 0

abbrev pub forced_target : Option ToolRecord → ℕ
forced_target none = nil_uuid
forced_target (some tool) = tool.id

unfoldable pub forced_decision : Services → ℕ → LlmDecision
forced_decision v tool_id = record {
  trace_payload =
      object3 "type" (str "tool_call") "tool_id" (str (v.serde.uuid_text tool_id)) "forced"
        (Json.Value.bool true);
  kind = tool_call tool_id (object1 "query" (str "forced invalid lookup"));
}

unfoldable pub tool_decision : Services → ToolRecord → ℕ → LlmDecision
tool_decision v tool tool_result_count = record {
  trace_payload = object2 "type" (str "tool_call") "tool_id" (str (v.serde.uuid_text tool.id));
  kind = tool_call tool.id (object1 "query" (str (join "iteration-" (decimal tool_result_count))));
}

unfoldable pub final_decision : LlmDecision
final_decision = record {
  trace_payload = object1 "type" (str "final_answer");
  kind = final_answer "Deterministic mock final answer.";
}

-- The arm for `force_invalid_tool_call`.
unfoldable pub forced_call : Services → ℕ → ℕ → Action LlmDecision
unfolding forced_decision
forced_call v tenant_id agent_id = do
  tool ← find_unbound_active_tool v.engine tenant_id agent_id
  pure (forced_decision v (forced_target tool))

-- The arm for fewer than two tool results.
unfoldable pub first_tool_call : Services → List ToolRecord → ℕ → Action LlmDecision
unfolding tool_decision
first_tool_call v bound_tools tool_result_count = do
  tool ← ok_or (first bound_tools) (internal "agent has no bound tools for deterministic loop")
  pure (tool_decision v tool tool_result_count)

unfoldable pub mock_llm_decision :
    Services → ℕ → ℕ → List ToolRecord → ℕ → Bool → Action LlmDecision
unfolding forced_call first_tool_call final_decision
mock_llm_decision v tenant_id agent_id bound_tools tool_result_count force_invalid_tool_call =
    if force_invalid_tool_call
    then forced_call v tenant_id agent_id
    else if ltb tool_result_count 2
    then first_tool_call v bound_tools tool_result_count
    else pure final_decision

-- Vec::contains
abbrev pub contains : List ℕ → ℕ → Bool
contains [] id = false
contains (x ∷ xs) id = x == id || contains xs id

-- The checks of `authorize_tool_call` once the tool is known to exist.
unfoldable pub authorize_found : Engine → ℕ → ℕ → ℕ → ToolRecord → Action ToolRecord
authorize_found e tenant_id agent_id tool_id tool =
    if is_some tool.deleted_at then raise (bad_request "tool_deleted") else do
      allowed_tool_ids ← get_agent_tool_ids e tenant_id agent_id
      if not (contains allowed_tool_ids tool_id)
          then raise (bad_request "tool_not_allowed_for_agent")
          else pure tool

unfoldable pub authorize_tool_call : Engine → ℕ → ℕ → ℕ → Action ToolRecord
unfolding authorize_found
authorize_tool_call e tenant_id agent_id tool_id = do
  found ← get_tool tenant_id tool_id
  tool ← ok_or found (bad_request "tool_not_allowed_for_agent")
  authorize_found e tenant_id agent_id tool_id tool
