-- ===== src/Binding/Agent.antt =====
-- The whole transaction.
use multi_tenant_agent_platf.Prelude.{
  ℕ, ◌+◌, ◌≡◌, refl, String, true, false, ◌&&◌, Option, none, List, [], ◌∷◌, ◌++◌, arith, ◌==◌,
  ==_refl, ℤ,
}
use multi_tenant_agent_platf.Error.{not_found}
use multi_tenant_agent_platf.Exec.{ok, err, pure, of_result, attempt, ◌>>=◌}
use multi_tenant_agent_platf.Rows.{exists}
use multi_tenant_agent_platf.Rows.Filtered.{exists-append}
use multi_tenant_agent_platf.Db.{Engine, Db, AgentRow, AgentToolRow, admit, on_constraint}
use multi_tenant_agent_platf.Db.Transaction.{run_in, finish, transaction}
use multi_tenant_agent_platf.Db.Agents.{
  agent_from_row, agent_at, agent_violation, binding_at, insert_agent, add_agent, create_agent,
}
use multi_tenant_agent_platf.Db.Tools.{active_tool_at}
use multi_tenant_agent_platf.Binding.{binding, all_active, distinct, is_new}
use multi_tenant_agent_platf.Binding.Loop.{unbound, bound, bind_tools-bound, bind_tools_missing}

new-unbound :
    (now t a : ℕ) (ids : List ℕ) (rows : List AgentToolRow)
    → is_new t a rows ≡ true
    → unbound now t a ids rows ≡ true
unfolding exists
new-unbound now t a [] rows h = refl
new-unbound now t a (id ∷ ids) rows h =
    let free : exists (binding_at (binding now t a id)) rows ≡ false = fresh rows (ground arith) in
    rw free (new-unbound now t a ids rows h)
  where
    fresh :
        (rows : List AgentToolRow)
        → exists (λ b. b.tenant_id == t && b.agent_id == a) rows ≡ false
        → exists (binding_at (binding now t a id)) rows ≡ false
    fresh [] g = refl
    fresh (b ∷ bs) g = ground (arith, fresh bs)

-- The row that `create_agent` tries to insert.
abbrev pub new_agent : Engine → ℕ → Option String → String → ℤ → Db → AgentRow
new_agent e t name system_prompt max_iterations db = record {
  id = e.gen_random_uuid db.ticks;
  tenant_id = t;
  name = name;
  system_prompt = system_prompt;
  max_iterations = max_iterations;
  created_at = e.now db.ticks;
  deleted_at = none;
}

-- The inserted row is found.
row-known :
    (row : AgentRow) (db : Db)
    → exists (agent_at row.tenant_id row.id) (db.agents ++ row ∷ []) ≡ true
unfolding exists
row-known row db =
    rw
      (
        exists-append (agent_at row.tenant_id row.id) db.agents (row ∷ []),
        ==_refl row.tenant_id,
        ==_refl row.id,
      )
      (ground arith)

-- If no constraint refuses the agent's row, the named tools are active tools of the tenant, none is
-- named twice and the new id has no bindings, the agent is created: its row is added, and with it one
-- binding for each tool, in the order in which they are named.
pub create_agent-bound :
    (e : Engine) (t : ℕ) (name : Option String) (system_prompt : String) (tool_ids : List ℕ)
    (max_iterations : ℤ) (db : Db)
    → let row = new_agent e t name system_prompt max_iterations db in
      agent_violation row db ≡ none
      → all_active t tool_ids db.tools ≡ true
      → distinct tool_ids ≡ true
      → is_new t row.id db.agent_tools ≡ true
      → create_agent e t name system_prompt tool_ids max_iterations db ≡ (
        ok (agent_from_row row),
        bound
            (e.now db.ticks)
            t
            row.id
            tool_ids
            (record db { agents = db.agents ++ row ∷ []; ticks = db.ticks + 1 }),
      )
unfolding create_agent transaction add_agent run_in attempt insert_agent admit on_constraint
    agent_from_row of_result finish pure ◌>>=◌
create_agent-bound e t name system_prompt tool_ids max_iterations db clear active differ new =
    let row = new_agent e t name system_prompt max_iterations db in
    let after : Db = record db { agents = db.agents ++ row ∷ []; ticks = db.ticks + 1 } in
    rw
      (
        clear,
        bind_tools-bound e (e.now db.ticks) t row.id tool_ids after (row-known row db) active differ
            (new-unbound (e.now db.ticks) t row.id tool_ids db.agent_tools new),
      )
      refl

-- If no constraint refuses the agent's row, the new id has no bindings, and among the named tools there
-- is one that is not an active tool of the tenant, behind active ones that are named once each, the
-- answer is that something was not found, and the database is as before: neither the agent nor the bindings of the tools before
-- that one are left behind.
pub create_agent_rolled_back :
    (e : Engine) (t : ℕ) (name : Option String) (system_prompt : String) (earlier : List ℕ)
    (bad : ℕ) (rest : List ℕ) (max_iterations : ℤ) (db : Db)
    → let row = new_agent e t name system_prompt max_iterations db in
      agent_violation row db ≡ none
      → all_active t earlier db.tools ≡ true
      → distinct earlier ≡ true
      → is_new t row.id db.agent_tools ≡ true
      → exists (active_tool_at t bad) db.tools ≡ false
      → create_agent e t name system_prompt (earlier ++ bad ∷ rest) max_iterations db
        ≡ (err not_found, db)
unfolding create_agent transaction add_agent run_in attempt insert_agent admit on_constraint
    agent_from_row of_result finish pure ◌>>=◌
create_agent_rolled_back e t name system_prompt earlier bad rest max_iterations db clear active
      differ new missing =
    let row = new_agent e t name system_prompt max_iterations db in
    let after : Db = record db { agents = db.agents ++ row ∷ []; ticks = db.ticks + 1 } in
    rw
      (
        clear,
        bind_tools_missing e (e.now db.ticks) t row.id earlier bad rest after (row-known row db)
            active differ (new-unbound (e.now db.ticks) t row.id earlier db.agent_tools new)
            missing,
      )
      refl
