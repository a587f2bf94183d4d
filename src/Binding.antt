-- ===== src/Binding.antt =====
-- An agent is created with its tools, or not at all (`create_agent` of server/src/db.rs).
pub mod Loop
pub mod Agent
use multi_tenant_agent_platf.Prelude.{ℕ, Bool, true, false, not, ◌&&◌, ◌||◌, List, [], ◌∷◌, ◌==◌}
use multi_tenant_agent_platf.Rows.{exists}
use multi_tenant_agent_platf.Db.{ToolRow, AgentToolRow}
use multi_tenant_agent_platf.Db.Tools.{active_tool_at}
use multi_tenant_agent_platf.Runtime.Decision.{contains}

-- The row that binds a tool to an agent.
abbrev pub binding : ℕ → ℕ → ℕ → ℕ → AgentToolRow
binding now tenant_id agent_id tool_id = record {
  tenant_id = tenant_id;
  agent_id = agent_id;
  tool_id = tool_id;
  created_at = now;
}

-- Every id is that of an active tool of the tenant.
abbrev pub all_active : ℕ → List ℕ → List ToolRow → Bool
all_active tenant_id [] tools = true
all_active tenant_id (id ∷ ids) tools =
    exists (active_tool_at tenant_id id) tools && all_active tenant_id ids tools

abbrev pub distinct : List ℕ → Bool
distinct [] = true
distinct (id ∷ ids) = not (contains ids id) && distinct ids

-- The agent has no binding yet.
abbrev pub is_new : ℕ → ℕ → List AgentToolRow → Bool
is_new tenant_id agent_id rows =
    not (exists (λ b. b.tenant_id == tenant_id && b.agent_id == agent_id) rows)
