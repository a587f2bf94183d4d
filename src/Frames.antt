-- ===== src/Frames.antt =====
-- What every part of the server does to the database is a chain of the statements of
-- server/src/db.rs and server/src/trace.rs. A relation that each of them keeps is kept by the
-- transactions, the runs and the requests: one induction, in the modules below, for all relations.
pub mod Transactions
pub mod Runs
pub mod Starting
pub mod Requests
pub mod Server
pub mod Tables
pub mod ToolTable
use multi_tenant_agent_platf.Prelude.{ℕ, String, ◌≡◌, refl, sym, subst, ◌∙◌, Option, none, some}
use multi_tenant_agent_platf.Json.{Value}
use multi_tenant_agent_platf.Core.{RunStatus, pending, running, success, failed}
use multi_tenant_agent_platf.Error.{AppError, DbError}
use multi_tenant_agent_platf.Exec.{Exec}
use multi_tenant_agent_platf.Exec.Moves.{Moves, IsPreorder}
use multi_tenant_agent_platf.Db.{Engine, Db, AgentRow, AgentToolRow, RunRow, Action, admit}
use multi_tenant_agent_platf.Db.Tenants.{
  create_tenant, create_api_key, find_active_api_key_by_prefix,
}
use multi_tenant_agent_platf.Db.Tools.{
  create_tool, delete_tool, list_tools, get_tool, list_agent_tools, find_unbound_active_tool,
}
use multi_tenant_agent_platf.Db.Agents.{
  insert_agent, insert_binding, tool_exists, get_agent, get_agent_tool_ids,
}
use multi_tenant_agent_platf.Db.Runs.{
  insert_run, select_keyed_run, mark_run_failed, begin_run_execution, finalize_run, get_run,
}
use multi_tenant_agent_platf.Db.Traces.{append_event, get_trace}

-- The statuses that a run is finalized with.
abbrev pub IsFinal : RunStatus → Type 0
IsFinal pending = ⊥
IsFinal running = ⊥
IsFinal success = Unit {0}
IsFinal failed = Unit {0}

-- The updates of one run, and its events.
pub record RunWrites (R : Db → Db → Type 0) (e : Engine) (a run_id : ℕ) : Type 0 where
  pub failure : (reason : String) → Moves R (mark_run_failed e a run_id reason)
  pub start : Moves R (begin_run_execution e a run_id)
  pub finish :
      (status : RunStatus) (answer reason : Option String)
      → IsFinal status
      → Moves R (finalize_run e a run_id status answer reason)
  pub event :
      (event_type : String) (payload : Value) → Moves R (append_event e a run_id event_type payload)

-- The other statements that write for one tenant.
pub record TableWrites (R : Db → Db → Type 0) (e : Engine) (a : ℕ) : Type 0 where
  pub api_key : (key_prefix key_hash : String) → Moves R (create_api_key e a key_prefix key_hash)
  pub tool :
      (name : String) (schema handler : Value) → Moves R (create_tool e a name schema handler)
  pub tool_deletion : (tool_id : ℕ) → Moves R (delete_tool e a tool_id)
  pub agent : (row : AgentRow) → row.tenant_id ≡ a → Moves R (insert_agent row)
  pub binding : (row : AgentToolRow) → row.tenant_id ≡ a → Moves R (insert_binding row)
  pub run : (row : RunRow) → row.tenant_id ≡ a → Moves R (insert_run row)

pub record Writes (R : Db → Db → Type 0) (e : Engine) (a : ℕ) : Type 0 where
  pub tables : TableWrites R e a
  pub runs : (run_id : ℕ) → RunWrites R e a run_id

-- The actions that only read.
abbrev pub Same : Db → Db → Type 0
Same before after = after ≡ before

pub Same-IsPreorder : IsPreorder Same
Same-IsPreorder = record { stay = λ s. refl; chain = λ s t u f g. g ∙ f }

-- A statement that is refused changes nothing.
pub admit_moves :
    {R : Db → Db → Type 0} {A : Type 0} (v : Option DbError) (x : A) (after before : Db)
    → IsPreorder R
    → R before after
    → R before (admit v x after before).1
unfolding admit
admit_moves none x after before o h = h
admit_moves (some e) x after before o h = o.stay before

module _ {R : Db → Db → Type 0} (o : IsPreorder R) where
  pub find_active_api_key_by_prefix-Moves :
      (key_prefix : String) → Moves R (find_active_api_key_by_prefix key_prefix)
  unfolding find_active_api_key_by_prefix
  find_active_api_key_by_prefix-Moves key_prefix = record { at = o.stay }

  pub list_tools-Moves : (e : Engine) (a : ℕ) → Moves R (list_tools e a)
  unfolding list_tools
  list_tools-Moves e a = record { at = o.stay }

  pub get_tool-Moves : (a tool_id : ℕ) → Moves R (get_tool a tool_id)
  unfolding get_tool
  get_tool-Moves a tool_id = record { at = o.stay }

  pub list_agent_tools-Moves :
      (e : Engine) (a agent_id : ℕ) → Moves R (list_agent_tools e a agent_id)
  unfolding list_agent_tools
  list_agent_tools-Moves e a agent_id = record { at = o.stay }

  pub find_unbound_active_tool-Moves :
      (e : Engine) (a agent_id : ℕ) → Moves R (find_unbound_active_tool e a agent_id)
  unfolding find_unbound_active_tool
  find_unbound_active_tool-Moves e a agent_id = record { at = o.stay }

  pub tool_exists-Moves : (a tool_id : ℕ) → Moves R (tool_exists a tool_id)
  unfolding tool_exists
  tool_exists-Moves a tool_id = record { at = o.stay }

  pub get_agent-Moves : (a agent_id : ℕ) → Moves R (get_agent a agent_id)
  unfolding get_agent
  get_agent-Moves a agent_id = record { at = o.stay }

  pub get_agent_tool_ids-Moves :
      (e : Engine) (a agent_id : ℕ) → Moves R (get_agent_tool_ids e a agent_id)
  unfolding get_agent_tool_ids
  get_agent_tool_ids-Moves e a agent_id = record { at = o.stay }

  pub select_keyed_run-Moves :
      (a agent_id : ℕ) (key : Option String) → Moves R (select_keyed_run a agent_id key)
  unfolding select_keyed_run
  select_keyed_run-Moves a agent_id key = record { at = o.stay }

  pub get_run-Moves : (a run_id : ℕ) → Moves R (get_run a run_id)
  unfolding get_run
  get_run-Moves a run_id = record { at = o.stay }

  pub get_trace-Moves : (e : Engine) (a run_id : ℕ) → Moves R (get_trace e a run_id)
  unfolding get_trace
  get_trace-Moves e a run_id = record { at = o.stay }

pub ruleset reads = (
  find_active_api_key_by_prefix-Moves, list_tools-Moves, get_tool-Moves, list_agent_tools-Moves,
  find_unbound_active_tool-Moves, tool_exists-Moves, get_agent-Moves, get_agent_tool_ids-Moves,
  select_keyed_run-Moves, get_run-Moves, get_trace-Moves,
)
