-- ===== src/Binding/Loop.antt =====
-- The loop over the tools of a new agent.
use mathlib.Core.List.{append-nil, append_assoc}
use multi_tenant_agent_platf.Prelude.{
  ℕ, suc, ◌+◌, ◌≡◌, refl, Bool, true, false, not, ◌&&◌, List, [], ◌∷◌, ◌++◌, map, length, arith,
  ◌==◌, ==_refl,
}
use multi_tenant_agent_platf.Exec.{ok, err, pure, raise, ◌>>=◌}
use multi_tenant_agent_platf.Error.{not_found}
use multi_tenant_agent_platf.Rows.{exists}
use multi_tenant_agent_platf.Rows.Filtered.{exists-append}
use multi_tenant_agent_platf.Db.{Engine, Db, ToolRow, AgentToolRow, admit, lift_db}
use multi_tenant_agent_platf.Db.Tools.{active_tool_at}
use multi_tenant_agent_platf.Db.Transaction.{run_in}
use multi_tenant_agent_platf.Db.Agents.{
  agent_at, binding_at, binding_violation, insert_binding, tool_exists, query_in, bind_tools,
}
use multi_tenant_agent_platf.Runtime.Decision.{contains}
use multi_tenant_agent_platf.Binding.{binding, all_active, distinct}

-- None of the ids is bound to the agent.
abbrev pub unbound : ℕ → ℕ → ℕ → List ℕ → List AgentToolRow → Bool
unbound now t a [] rows = true
unbound now t a (id ∷ ids) rows =
    not (exists (binding_at (binding now t a id)) rows) && unbound now t a ids rows

unbound-append :
    (now t a id : ℕ) (ids : List ℕ) (rows : List AgentToolRow)
    → unbound now t a ids rows ≡ true
    → contains ids id ≡ false
    → unbound now t a ids (rows ++ binding now t a id ∷ []) ≡ true
unfolding exists
unbound-append now t a id [] rows free other = refl
unbound-append now t a id (x ∷ ids) rows free other =
    let differs : (id == x) ≡ false = ground arith in
    rw
      (
        exists-append (binding_at (binding now t a x)) rows (binding now t a id ∷ []),
        ==_refl t,
        ==_refl a,
        differs,
      )
      (ground (arith, unbound-append now t a id ids rows))

-- An active tool exists as a tool.
active-exists :
    (t id : ℕ) (tools : List ToolRow)
    → exists (active_tool_at t id) tools ≡ true
    → exists (λ u. u.tenant_id == t && u.id == id) tools ≡ true
unfolding exists
active-exists t id [] h = h
active-exists t id (u ∷ tools) h = ground (arith, active-exists t id tools)

-- The database after the bindings of the ids.
abbrev pub bound : ℕ → ℕ → ℕ → List ℕ → Db → Db
bound now t a ids db = record db {
  agent_tools = db.agent_tools ++ map (binding now t a) ids;
  ticks = db.ticks + length ids;
}

bound-cons :
    (now t a id : ℕ) (ids : List ℕ) (db : Db)
    → bound now t a ids (record db {
      agent_tools = db.agent_tools ++ binding now t a id ∷ [];
      ticks = db.ticks + 1;
    })
      ≡ bound now t a (id ∷ ids) db
bound-cons now t a id ids db =
    let same_ticks : db.ticks + 1 + length ids ≡ db.ticks + suc (length ids) = omega arith in
    rw
      (
        append_assoc db.agent_tools (binding now t a id ∷ []) (map (binding now t a) ids),
        same_ticks,
      )
      refl

-- The loop binds each tool in turn if they are active, distinct and new to the agent.
pub bind_tools-bound :
    (e : Engine) (now t a : ℕ) (ids : List ℕ) (db : Db)
    → exists (agent_at t a) db.agents ≡ true
    → all_active t ids db.tools ≡ true
    → distinct ids ≡ true
    → unbound now t a ids db.agent_tools ≡ true
    → bind_tools e now t a ids (record { db = db; failed = false })
      ≡ (ok tt, record { db = bound now t a ids db; failed = false })
unfolding bind_tools query_in run_in tool_exists insert_binding binding_violation admit lift_db pure
    ◌>>=◌
bind_tools-bound e now t a [] db known active differ free =
    let same_ticks : db.ticks + 0 ≡ db.ticks = omega arith in
    rw (append-nil db.agent_tools, same_ticks) refl
bind_tools-bound e now t a (id ∷ ids) db known active differ free =
    let is_active : exists (active_tool_at t id) db.tools ≡ true = ground arith in
    let new_pair : exists (binding_at (binding now t a id)) db.agent_tools ≡ false = ground arith in
    rw (is_active, new_pair, known, active-exists t id db.tools is_active)
      (rw (bound-cons now t a id ids db) at (
        bind_tools-bound e now t a ids
          (record db {
            agent_tools = db.agent_tools ++ binding now t a id ∷ [];
            ticks = db.ticks + 1;
          })
          known (ground arith) (ground arith)
          (unbound-append now t a id ids db.agent_tools (ground arith) (ground arith))))

-- The loop stops at the first tool that is not an active tool of the tenant.
pub bind_tools_missing :
    (e : Engine) (now t a : ℕ) (ids : List ℕ) (bad : ℕ) (rest : List ℕ) (db : Db)
    → exists (agent_at t a) db.agents ≡ true
    → all_active t ids db.tools ≡ true
    → distinct ids ≡ true
    → unbound now t a ids db.agent_tools ≡ true
    → exists (active_tool_at t bad) db.tools ≡ false
    → bind_tools e now t a (ids ++ bad ∷ rest) (record { db = db; failed = false })
      ≡ (err not_found, record { db = bound now t a ids db; failed = false })
unfolding bind_tools query_in run_in tool_exists insert_binding binding_violation admit lift_db pure
    raise ◌>>=◌
bind_tools_missing e now t a [] bad rest db known active differ free missing =
    let same_ticks : db.ticks + 0 ≡ db.ticks = omega arith in
    rw (missing, append-nil db.agent_tools, same_ticks) refl
bind_tools_missing e now t a (id ∷ ids) bad rest db known active differ free missing =
    let is_active : exists (active_tool_at t id) db.tools ≡ true = ground arith in
    let new_pair : exists (binding_at (binding now t a id)) db.agent_tools ≡ false = ground arith in
    rw (is_active, new_pair, known, active-exists t id db.tools is_active)
      (rw (bound-cons now t a id ids db) at (
        bind_tools_missing e now t a ids bad rest
          (record db {
            agent_tools = db.agent_tools ++ binding now t a id ∷ [];
            ticks = db.ticks + 1;
          })
          known (ground arith) (ground arith)
          (unbound-append now t a id ids db.agent_tools (ground arith) (ground arith)) missing))
