-- ===== src/Tenancy/Reads.antt =====
-- What a tenant reads is determined by what it owns.
use mathlib.Core.Option
use mathlib.Core.List.{Mem, Perm}
use mathlib.Core.List.Perm
use multi_tenant_agent_platf.Prelude.{
  ℕ, ◌≡◌, refl, sym, ap, ◌∙◌, arith, String, Bool, not, ◌&&◌, ◌==◌, Option, none, some, is_none,
  List, map,
}
use multi_tenant_agent_platf.Error.{AppError}
use multi_tenant_agent_platf.Rows.{select, first, exists}
use multi_tenant_agent_platf.Rows.Filtered.{select-and, exists-select}
use multi_tenant_agent_platf.Rows.Ordered.{select-holds, SameKey, first-SameKey}
use multi_tenant_agent_platf.Exec.{Result, ok, err}
use multi_tenant_agent_platf.Db.{Engine, Db, ToolRow, AgentToolRow, fetch_one}
use multi_tenant_agent_platf.Db.Tools.{
  ToolRecord, list_tools, get_tool, tool_from_row, binding_of, list_agent_tools,
  find_unbound_active_tool,
}
use multi_tenant_agent_platf.Db.Agents.{get_agent, get_agent_tool_ids, agent_from_row, tool_exists}
use multi_tenant_agent_platf.Db.Runs.{get_run, run_from_row, select_keyed_run}
use multi_tenant_agent_platf.Db.Traces.{get_trace, trace_from_row}
use multi_tenant_agent_platf.Tenancy.{view}
use multi_tenant_agent_platf.Tenancy.Joins.{
  select-owned, join_tools-owned, join_tools-Perm, bound-owned,
}

-- Rows that agree for the tenant agree under every condition within the tenant.
owned :
    {A B : Type 0} (p q : A → Bool) (xs ys : List A) (f : List A → B)
    → select p xs ≡ select p ys
    → f (select (λ x. p x && q x) xs) ≡ f (select (λ x. p x && q x) ys)
owned p q xs ys f h = ap f (rw (select-and p q xs, select-and p q ys, h) refl)

-- Two answers with the same records, each in an order of its own.
abbrev pub AreAlike : {A : Type 0} → Result AppError (List A) → Result AppError (List A) → Type 0
AreAlike (ok xs) (ok ys) = Perm xs ys
AreAlike (ok xs) (err y) = ⊥
AreAlike (err x) c = ⊥

-- Two answers without a tool, or with tools that were created at the same time.
abbrev pub AreOldest :
    Result AppError (Option ToolRecord) → Result AppError (Option ToolRecord) → Type 0
AreOldest (ok o) (ok u) = SameKey (λ tool. tool.created_at) o u
AreOldest (ok o) (err y) = ⊥
AreOldest (err x) c = ⊥

-- An ordered query of two engines that found the same rows.
ordered-AreAlike :
    {A B : Type 0} (e e' : Engine) (f : A → B) (key : A → ℕ) (xs ys : List A)
    → xs ≡ ys
    → Perm (map f (e.order_by key xs)) (map f (e'.order_by key ys))
ordered-AreAlike e e' f key xs ys same =
    rw same (Perm.map f (Perm.trans (e.order_by-perm key ys) (Perm.symm (e'.order_by-perm key ys))))

first-AreOldest :
    (o u : Option ToolRow)
    → SameKey (λ r. r.created_at) o u
    → SameKey (λ t. t.created_at) (Option.map tool_from_row o) (Option.map tool_from_row u)
unfolding tool_from_row
first-AreOldest none none h = h
first-AreOldest none (some y) h = h
first-AreOldest (some x) none h = h
first-AreOldest (some x) (some y) h = h

module _ (e e' : Engine) (t : ℕ) (db db' : Db) (h : view t db ≡ view t db') where
  same_tools : select (λ r. r.tenant_id == t) db.tools ≡ select (λ r. r.tenant_id == t) db'.tools
  same_tools = ap (λ w. w.tools) h

  same_bindings :
      select (λ r. r.tenant_id == t) db.agent_tools ≡ select (λ r. r.tenant_id == t) db'.agent_tools
  same_bindings = ap (λ w. w.agent_tools) h

  -- The tools of an agent, over both tables.
  list_agent_tools-AreAlike :
      (agent_id : ℕ)
      → AreAlike (list_agent_tools e t agent_id db).0 (list_agent_tools e' t agent_id db').0
  unfolding list_agent_tools
  list_agent_tools-AreAlike agent_id =
      let query = binding_of t agent_id in
      let found = select query db.agent_tools in
      let created : AgentToolRow → ℕ = λ b. b.created_at in
      let found' = select query db'.agent_tools in
      let same : found ≡ found' =
        owned (λ r. r.tenant_id == t) (λ r. r.agent_id == agent_id) db.agent_tools db'.agent_tools
          (λ rows. rows) same_bindings in
      let shuffled : Perm (e.order_by created found) (e'.order_by created found') = rw same (
        Perm.trans (e.order_by-perm created found')
          (Perm.symm (e'.order_by-perm created found'))) in
      let own : (b : AgentToolRow) → Mem b (e.order_by created found) → b.tenant_id ≡ t = λ b m.
        ground (
          arith,
          select-holds query db.agent_tools b (Perm.subset (e.order_by-perm created found) b m),
        ) in
      rw (join_tools-owned t (e.order_by created found) db.tools db'.tools own same_tools)
        (Perm.map tool_from_row (join_tools-Perm db'.tools shuffled))

  -- The oldest active tool that is not bound to the agent.
  find_unbound_active_tool-AreOldest :
      (agent_id : ℕ)
      → AreOldest
          (find_unbound_active_tool e t agent_id db).0
          (find_unbound_active_tool e' t agent_id db').0
  unfolding find_unbound_active_tool
  find_unbound_active_tool-AreOldest agent_id =
      let created : ToolRow → ℕ = λ r. r.created_at in
      let free : List AgentToolRow → ToolRow → Bool = λ bindings r.
        is_none r.deleted_at
        && not (
            exists
              (λ b. b.tenant_id == r.tenant_id && (b.agent_id == agent_id && b.tool_id == r.id))
              bindings) in
      let found' = select (λ r. r.tenant_id == t && free db'.agent_tools r) db'.tools in
      let same : select (λ r. r.tenant_id == t && free db.agent_tools r) db.tools ≡ found' =
        select-owned (λ r. r.tenant_id == t) (free db.agent_tools) (free db'.agent_tools) db.tools
          db'.tools
          (λ r own.
            rw
              (bound-owned t agent_id r db.agent_tools db'.agent_tools (ground (arith, own))
                same_bindings)
              refl)
          same_tools in
      rw same (
        first-AreOldest (first (e.order_by created found')) (first (e'.order_by created found')) (
          first-SameKey created _ _
            (Perm.trans (e.order_by-perm created found')
              (Perm.symm (e'.order_by-perm created found')))
            (e.order_by-sorted created found') (e'.order_by-sorted created found')))

  -- Two databases in which tenant `t` owns the same rows answer every read of `t` alike, whatever else
  -- they hold and however their engines order rows of the same time: with the same tool, agent or run
  -- for an id, the same run for an idempotency key and the same answer whether a tool exists; with the
  -- same tools, tools and tool ids of an agent, and events of a run, up to their order; and with an
  -- unbound tool of the same age.
  pub reads_agree :
      ((tool_id : ℕ) → (get_tool t tool_id db).0 ≡ (get_tool t tool_id db').0)
      × ((tool_id : ℕ) → (tool_exists t tool_id db).0 ≡ (tool_exists t tool_id db').0)
      × ((agent_id : ℕ) → (get_agent t agent_id db).0 ≡ (get_agent t agent_id db').0)
      × ((run_id : ℕ) → (get_run t run_id db).0 ≡ (get_run t run_id db').0)
      × ((agent_id : ℕ) (key : Option String)
          → (select_keyed_run t agent_id key db).0 ≡ (select_keyed_run t agent_id key db').0)
      × AreAlike (list_tools e t db).0 (list_tools e' t db').0
      × ((agent_id : ℕ)
          → AreAlike
              (get_agent_tool_ids e t agent_id db).0
              (get_agent_tool_ids e' t agent_id db').0)
      × ((agent_id : ℕ)
          → AreAlike (list_agent_tools e t agent_id db).0 (list_agent_tools e' t agent_id db').0)
      × ((run_id : ℕ) → AreAlike (get_trace e t run_id db).0 (get_trace e' t run_id db').0)
      × ((agent_id : ℕ)
          → AreOldest
              (find_unbound_active_tool e t agent_id db).0
              (find_unbound_active_tool e' t agent_id db').0)
  unfolding list_tools get_tool tool_exists get_agent get_agent_tool_ids get_run select_keyed_run
      get_trace
  reads_agree = (
    λ tool_id.
        owned _ _ db.tools db'.tools (λ rows. ok (Option.map tool_from_row (first rows)))
          same_tools,
    λ tool_id. ap ok (
        exists-select (λ r. r.tenant_id == t) (λ r. r.id == tool_id && is_none r.deleted_at)
          db.tools
        ∙ ap (exists (λ r. r.id == tool_id && is_none r.deleted_at)) same_tools
        ∙ sym (
            exists-select (λ r. r.tenant_id == t) (λ r. r.id == tool_id && is_none r.deleted_at)
              db'.tools)),
    λ agent_id.
        owned _ _ db.agents db'.agents (λ rows. ok (Option.map agent_from_row (first rows)))
          (ap (λ w. w.agents) h),
    λ run_id.
        owned _ _ db.runs db'.runs (λ rows. ok (Option.map run_from_row (first rows)))
          (ap (λ w. w.runs) h),
    λ agent_id key.
        owned _ _ db.runs db'.runs (λ rows. fetch_one (first rows)) (ap (λ w. w.runs) h),
    ordered-AreAlike e e' tool_from_row (λ r. r.created_at) _ _
        (owned _ _ db.tools db'.tools (λ rows. rows) same_tools),
    λ agent_id.
        ordered-AreAlike e e' (λ b. b.tool_id) (λ b. b.created_at) _ _
          (owned _ _ db.agent_tools db'.agent_tools (λ rows. rows) same_bindings),
    list_agent_tools-AreAlike,
    λ run_id.
        ordered-AreAlike e e' trace_from_row (λ r. r.seq) _ _
          (owned _ _ db.run_traces db'.run_traces (λ rows. rows) (ap (λ w. w.run_traces) h)),
    find_unbound_active_tool-AreOldest,
  )
