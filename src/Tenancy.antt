-- ===== src/Tenancy.antt =====
-- Tenant isolation over shared tables: what a tenant owns of the database, and the relation of two
-- databases that agree on it.
pub mod Writes
pub mod Requests
pub mod Joins
pub mod Reads
pub mod Credentials
use multi_tenant_agent_platf.Prelude.{ℕ, ◌≡◌, refl, sym, ◌∙◌, List, ◌==◌, Option, none, some}
use multi_tenant_agent_platf.Rows.{select}
use multi_tenant_agent_platf.Exec.Moves.{IsPreorder}
use multi_tenant_agent_platf.Error.{DbError}
use multi_tenant_agent_platf.Db.{
  Db, ApiKeyRow, ToolRow, AgentRow, AgentToolRow, RunRow, TraceRow, admit,
}

pub record View : Type 0 where
  pub api_keys : List ApiKeyRow
  pub tools : List ToolRow
  pub agents : List AgentRow
  pub agent_tools : List AgentToolRow
  pub runs : List RunRow
  pub run_traces : List TraceRow

-- The rows of each tenant-owned table that carry the tenant's id.
abbrev pub view : ℕ → Db → View
view t db = record {
  api_keys = select (λ r. r.tenant_id == t) db.api_keys;
  tools = select (λ r. r.tenant_id == t) db.tools;
  agents = select (λ r. r.tenant_id == t) db.agents;
  agent_tools = select (λ r. r.tenant_id == t) db.agent_tools;
  runs = select (λ r. r.tenant_id == t) db.runs;
  run_traces = select (λ r. r.tenant_id == t) db.run_traces;
}

-- Nothing that tenant `t` owns has changed.
abbrev pub Untouched : ℕ → Db → Db → Type 0
Untouched t before after = view t after ≡ view t before

pub Untouched-IsPreorder : (t : ℕ) → IsPreorder (Untouched t)
Untouched-IsPreorder t = record { stay = λ s. refl; chain = λ s u v f g. g ∙ f }
