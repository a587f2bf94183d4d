-- ===== src/Db/Tools.antt =====
-- server/src/db.rs: tools.
use mathlib.Core.Option
use multi_tenant_agent_platf.Prelude.{
  ℕ, ◌+◌, String, Bool, ◌&&◌, Option, none, some, List, [], ◌∷◌, ◌++◌, map, str_eq, if◌then◌else◌,
  ◌==◌, not, is_none,
}
use multi_tenant_agent_platf.Json.{Value, is_object}
use multi_tenant_agent_platf.Error.{DbError, constraint, duplicate_name, not_found}
use multi_tenant_agent_platf.Exec.{ok, err}
use multi_tenant_agent_platf.Rows.{select, first, exists, update, count}
use multi_tenant_agent_platf.Db.{Engine, Db, ToolRow, AgentToolRow, Action, admit, on_constraint}

pub record ToolRecord : Type 0 where
  pub id : ℕ
  pub name : String
  pub input_schema : Value
  pub mock_handler : Value
  pub created_at : ℕ
  pub deleted_at : Option ℕ

unfoldable pub tool_from_row : ToolRow → ToolRecord
tool_from_row r = record {
  id = r.id;
  name = r.name;
  input_schema = r.input_schema;
  mock_handler = r.mock_handler;
  created_at = r.created_at;
  deleted_at = r.deleted_at;
}

-- WHERE tenant_id = $1 AND id = $2
abbrev pub tool_at : ℕ → ℕ → ToolRow → Bool
tool_at tenant_id tool_id r = r.tenant_id == tenant_id && r.id == tool_id

-- WHERE tenant_id = $1 AND id = $2 AND deleted_at IS NULL
abbrev pub active_tool_at : ℕ → ℕ → ToolRow → Bool
active_tool_at tenant_id tool_id r =
    r.tenant_id == tenant_id && (r.id == tool_id && is_none r.deleted_at)

-- Key of uq_tools_tenant_name_active, on the rows that it indexes.
abbrev pub same_tool_name : ToolRow → ToolRow → Bool
same_tool_name r u = u.tenant_id == r.tenant_id && (str_eq u.name r.name && is_none u.deleted_at)

unfoldable pub tool_violation : ToolRow → Db → Option DbError
tool_violation r db =
    if not (is_object r.input_schema)
    then some (constraint "tools_input_schema_check")
    else if not (is_object r.mock_handler)
    then some (constraint "tools_mock_handler_check")
    else if exists (λ u. u.id == r.id) db.tools
    then some (constraint "tools_pkey")
    else if exists (same_tool_name r) db.tools
    then some (constraint "uq_tools_tenant_name_active")
    else if not (exists (λ u. u.id == r.tenant_id) db.tenants)
    then some (constraint "tools_tenant_id_fkey")
    else none

-- The row that `create_tool` tries to insert.
unfoldable pub new_tool : Engine → ℕ → String → Value → Value → Db → ToolRow
new_tool e tenant_id name input_schema mock_handler db = record {
  id = e.gen_random_uuid db.ticks;
  tenant_id = tenant_id;
  name = name;
  input_schema = input_schema;
  mock_handler = mock_handler;
  created_at = e.now db.ticks;
  deleted_at = none;
}

unfoldable pub create_tool : Engine → ℕ → String → Value → Value → Action ToolRecord
unfolding admit on_constraint tool_from_row
create_tool e tenant_id name input_schema mock_handler db =
    let row = new_tool e tenant_id name input_schema mock_handler db in
    let after = record db { tools = db.tools ++ row ∷ []; ticks = db.ticks + 1 } in
    let (r, db') = admit (tool_violation row db) (tool_from_row row) after db in
    (on_constraint "uq_tools_tenant_name_active" duplicate_name r, db')

unfoldable pub list_tools : Engine → ℕ → Action (List ToolRecord)
unfolding tool_from_row
list_tools e tenant_id db =
    let rows = select (λ r. r.tenant_id == tenant_id && is_none r.deleted_at) db.tools in
    (ok (map tool_from_row (e.order_by (λ r. r.created_at) rows)), db)

unfoldable pub delete_tool : Engine → ℕ → ℕ → Action (Unit {0})
delete_tool e tenant_id tool_id db =
    let at = active_tool_at tenant_id tool_id in
    let after = record db {
      tools = update at (λ r. record r { deleted_at = some (e.now db.ticks) }) db.tools;
      ticks = db.ticks + 1;
    } in
    (if count at db.tools == 0 then err not_found else ok tt, after)

unfoldable pub get_tool : ℕ → ℕ → Action (Option ToolRecord)
unfolding tool_from_row
get_tool tenant_id tool_id db =
    (ok (Option.map tool_from_row (first (select (tool_at tenant_id tool_id) db.tools))), db)

-- JOIN tools t ON t.tenant_id = at.tenant_id AND t.id = at.tool_id, over the bindings in order
unfoldable pub join_tools : List AgentToolRow → List ToolRow → List ToolRow
join_tools [] tools = []
join_tools (b ∷ bs) tools = select (tool_at b.tenant_id b.tool_id) tools ++ join_tools bs tools

-- WHERE at.tenant_id = $1 AND at.agent_id = $2
abbrev pub binding_of : ℕ → ℕ → AgentToolRow → Bool
binding_of tenant_id agent_id b = b.tenant_id == tenant_id && b.agent_id == agent_id

unfoldable pub list_agent_tools : Engine → ℕ → ℕ → Action (List ToolRecord)
unfolding join_tools tool_from_row
list_agent_tools e tenant_id agent_id db =
    let bindings =
      e.order_by (λ b. b.created_at) (select (binding_of tenant_id agent_id) db.agent_tools) in
    (ok (map tool_from_row (join_tools bindings db.tools)), db)

unfoldable pub find_unbound_active_tool : Engine → ℕ → ℕ → Action (Option ToolRecord)
unfolding tool_from_row
find_unbound_active_tool e tenant_id agent_id db =
    let bound : ToolRow → Bool = λ t.
      exists (λ b. b.tenant_id == t.tenant_id && (b.agent_id == agent_id && b.tool_id == t.id))
        db.agent_tools in
    let rows =
      select (λ t. t.tenant_id == tenant_id && (is_none t.deleted_at && not (bound t))) db.tools in
    (ok (Option.map tool_from_row (first (e.order_by (λ t. t.created_at) rows))), db)
