-- ===== src/Toolbox.antt =====
-- The tools of a tenant (server/src/db.rs, uq_tools_tenant_name_active of
-- server/migrations/0001_init.sql) over the server's histories.
pub mod Deletion
pub mod Names
pub mod Contents
pub mod Refinement
use multi_tenant_agent_platf.Prelude.{
  ℕ, ◌≤◌, ◌≡◌, true, Bool, List, String, ◌==◌, ◌&&◌, is_none, str_eq,
}
use multi_tenant_agent_platf.Rows.{count, exists}
use multi_tenant_agent_platf.Db.{ToolRow}
use multi_tenant_agent_platf.Db.Tools.{active_tool_at}

-- The tool has been inserted, and is deleted.
abbrev pub Deleted : ℕ → ℕ → List ToolRow → Type 0
Deleted tenant_id tool_id rows =
    (exists (λ u. u.id == tool_id) rows ≡ true)
    × (count (active_tool_at tenant_id tool_id) rows ≡ 0)

abbrev pub active_named : ℕ → String → ToolRow → Bool
active_named tenant_id name r =
    r.tenant_id == tenant_id && (str_eq r.name name && is_none r.deleted_at)

-- A name belongs to at most one active tool of a tenant.
abbrev pub AreNamesUnique : List ToolRow → Type 0
AreNamesUnique rows = (tenant_id : ℕ) (name : String) → count (active_named tenant_id name) rows ≤ 1
