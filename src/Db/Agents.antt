-- ===== src/Db/Agents.antt =====
-- server/src/db.rs: agents and their bindings to tools.
use mathlib.Core.Option
use multi_tenant_agent_platf.Prelude.{
  ℕ, ◌+◌, String, Bool, false, ◌&&◌, Option, none, some, List, [], ◌∷◌, ◌++◌, map, ℤ, pos, negsuc,
  str_eq, if◌then◌else◌, ◌==◌, not, is_none, ltb, leb,
}
use multi_tenant_agent_platf.Error.{DbError, AppError, constraint, duplicate_name, not_found}
use multi_tenant_agent_platf.Exec.{ok, Exec, pure, raise, of_result, attempt, ◌>>=◌, ◌>>◌}
use multi_tenant_agent_platf.Rows.{select, first, exists}
use multi_tenant_agent_platf.Db.{
  Engine, Db, AgentRow, AgentToolRow, Action, admit, lift_db, on_constraint,
}
use multi_tenant_agent_platf.Db.Transaction.{Tx, run_in, transaction}
use multi_tenant_agent_platf.Db.Tools.{active_tool_at, binding_of}

pub record AgentRecord : Type 0 where
  pub id : ℕ
  pub name : Option String
  pub system_prompt : String
  pub max_iterations : ℤ
  pub created_at : ℕ

unfoldable pub agent_from_row : AgentRow → AgentRecord
agent_from_row r = record {
  id = r.id;
  name = r.name;
  system_prompt = r.system_prompt;
  max_iterations = r.max_iterations;
  created_at = r.created_at;
}

-- CHECK (max_iterations > 0), CHECK (max_iterations <= 50)
unfoldable pub iterations_allowed : ℤ → Bool
iterations_allowed (pos n) = ltb 0 n && leb n 50
iterations_allowed (negsuc n) = false

-- SQL's `=` on a column that may be NULL
abbrev pub equal_text : Option String → Option String → Bool
equal_text none o = false
equal_text (some s) none = false
equal_text (some s) (some t) = str_eq s t

abbrev pub same_agent_name : AgentRow → AgentRow → Bool
same_agent_name r u =
    u.tenant_id == r.tenant_id && (equal_text u.name r.name && is_none u.deleted_at)

abbrev pub agent_at : ℕ → ℕ → AgentRow → Bool
agent_at tenant_id agent_id r = r.tenant_id == tenant_id && r.id == agent_id

abbrev pub active_agent_at : ℕ → ℕ → AgentRow → Bool
active_agent_at tenant_id agent_id r =
    r.tenant_id == tenant_id && (r.id == agent_id && is_none r.deleted_at)

unfoldable pub agent_violation : AgentRow → Db → Option DbError
agent_violation r db =
    if not (iterations_allowed r.max_iterations)
    then some (constraint "agents_max_iterations_check")
    else if exists (λ u. u.id == r.id) db.agents
    then some (constraint "agents_pkey")
    else if exists (same_agent_name r) db.agents
    then some (constraint "uq_agents_tenant_name_active")
    else if not (exists (λ u. u.id == r.tenant_id) db.tenants)
    then some (constraint "agents_tenant_id_fkey")
    else none

unfoldable pub insert_agent : AgentRow → Exec Db DbError AgentRow
unfolding admit agent_violation
insert_agent row db =
    admit (agent_violation row db) row
      (record db { agents = db.agents ++ row ∷ []; ticks = db.ticks + 1 }) db

abbrev pub binding_at : AgentToolRow → AgentToolRow → Bool
binding_at r b = b.tenant_id == r.tenant_id && (b.agent_id == r.agent_id && b.tool_id == r.tool_id)

unfoldable pub binding_violation : AgentToolRow → Db → Option DbError
binding_violation r db =
    if exists (binding_at r) db.agent_tools
    then some (constraint "agent_tools_pkey")
    else if not (exists (agent_at r.tenant_id r.agent_id) db.agents)
    then some (constraint "agent_tools_tenant_id_agent_id_fkey")
    else if not (exists (λ t. t.tenant_id == r.tenant_id && t.id == r.tool_id) db.tools)
    then some (constraint "agent_tools_tenant_id_tool_id_fkey")
    else none

unfoldable pub insert_binding : AgentToolRow → Exec Db DbError (Unit {0})
unfolding admit binding_violation
insert_binding row db =
    admit (binding_violation row db) tt
      (record db { agent_tools = db.agent_tools ++ row ∷ []; ticks = db.ticks + 1 }) db

-- SELECT EXISTS (SELECT 1 FROM tools WHERE tenant_id = $1 AND id = $2 AND deleted_at IS NULL)
unfoldable pub tool_exists : ℕ → ℕ → Exec Db DbError Bool
tool_exists tenant_id tool_id db = (ok (exists (active_tool_at tenant_id tool_id) db.tools), db)

-- `query(…).execute(&mut *tx).await?`
unfoldable pub query_in : {A : Type 0} → Engine → Exec Db DbError A → Exec Tx AppError A
unfolding run_in lift_db
query_in e statement tx = let (r, tx') = run_in e statement tx in (lift_db r, tx')

-- The loop over `tool_ids`. The column default now() is the time at which the transaction began.
unfoldable pub bind_tools : Engine → ℕ → ℕ → ℕ → List ℕ → Exec Tx AppError (Unit {0})
bind_tools e now tenant_id agent_id [] = pure tt
bind_tools e now tenant_id agent_id (tool_id ∷ tool_ids) = do
  found ← query_in e (tool_exists tenant_id tool_id)
  if not found then raise not_found else do
    query_in e (
        insert_binding (record {
          tenant_id = tenant_id;
          agent_id = agent_id;
          tool_id = tool_id;
          created_at = now;
        }))
    bind_tools e now tenant_id agent_id tool_ids

-- The INSERT INTO agents with its match on the violated constraint.
unfoldable pub add_agent : Engine → AgentRow → Exec Tx AppError AgentRecord
unfolding run_in attempt on_constraint agent_from_row
add_agent e row = do
  result ← attempt (run_in e (insert_agent row))
  inserted ← of_result (on_constraint "uq_agents_tenant_name_active" duplicate_name result)
  pure (agent_from_row inserted)

unfoldable pub create_agent : Engine → ℕ → Option String → String → List ℕ → ℤ → Action AgentRecord
unfolding transaction add_agent bind_tools
create_agent e tenant_id name system_prompt tool_ids max_iterations db =
    let row : AgentRow = record {
      id = e.gen_random_uuid db.ticks;
      tenant_id = tenant_id;
      name = name;
      system_prompt = system_prompt;
      max_iterations = max_iterations;
      created_at = e.now db.ticks;
      deleted_at = none;
    } in
    let body : Exec Tx AppError AgentRecord = do
      agent ← add_agent e row
      bind_tools e (e.now db.ticks) tenant_id agent.id tool_ids
      pure agent
    in transaction e body db

unfoldable pub get_agent : ℕ → ℕ → Action (Option AgentRecord)
unfolding agent_from_row
get_agent tenant_id agent_id db = (
  ok (Option.map agent_from_row (first (select (active_agent_at tenant_id agent_id) db.agents))),
  db,
)

unfoldable pub get_agent_tool_ids : Engine → ℕ → ℕ → Action (List ℕ)
get_agent_tool_ids e tenant_id agent_id db =
    let rows = select (binding_of tenant_id agent_id) db.agent_tools in
    (ok (map (λ b. b.tool_id) (e.order_by (λ b. b.created_at) rows)), db)
