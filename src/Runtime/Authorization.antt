-- ===== src/Runtime/Authorization.antt =====
-- Which tool calls a run may make.
use mathlib.Core.List.{Mem, mem-cons_self, mem-cons_of_mem}
use mathlib.Core.List.Perm
use multi_tenant_agent_platf.Prelude.{
  ℕ, ◌≡◌, ◌≢◌, ◌==◌, refl, sym, ap, ◌∙◌, arith, true, [], ◌∷◌, Bool, Option, none, some, List, map,
  is_some, if◌then◌else◌, Bool-cases, Option-cases, inl, inr,
}
use multi_tenant_agent_platf.Rows.{select, first}
use multi_tenant_agent_platf.Rows.Filtered.{select-nil, first-holds}
use multi_tenant_agent_platf.Rows.Ordered.{none-exists, select-holds, mem_of_mem-select, mem-first}
use multi_tenant_agent_platf.Error.{AppError, bad_request}
use multi_tenant_agent_platf.Exec.{Result, ok, err, pure, raise, ok_or, ◌>>=◌}
use multi_tenant_agent_platf.Db.{Engine, Db, ToolRow, AgentToolRow}
use multi_tenant_agent_platf.Db.Tools.{ToolRecord, tool_from_row, tool_at, binding_of, get_tool}
use multi_tenant_agent_platf.Db.Agents.{get_agent_tool_ids}
use multi_tenant_agent_platf.Runtime.Decision.{contains, authorize_found, authorize_tool_call}

-- The ids that the query of the agent's bindings gives.
abbrev pub bound_ids : Engine → ℕ → ℕ → Db → List ℕ
bound_ids e tenant_id agent_id db =
    map (λ b. b.tool_id)
      (e.order_by (λ b. b.created_at) (select (binding_of tenant_id agent_id) db.agent_tools))

-- The answer of `authorize_tool_call`, as a table over what is stored.
abbrev pub verdict : Option ToolRow → Bool → Result AppError ToolRecord
verdict none bound = err (bad_request "tool_not_allowed_for_agent")
verdict (some row) bound =
    if is_some row.deleted_at
    then err (bad_request "tool_deleted")
    else if bound
    then ok (tool_from_row row)
    else err (bad_request "tool_not_allowed_for_agent")

-- The answer, read off the queries.
pub authorize_tool_call-verdict :
    (e : Engine) (tenant_id agent_id tool_id : ℕ) (db : Db)
    → authorize_tool_call e tenant_id agent_id tool_id db ≡ (
      verdict
          (first (select (tool_at tenant_id tool_id) db.tools))
          (contains (bound_ids e tenant_id agent_id db) tool_id),
      db,
    )
unfolding authorize_tool_call authorize_found get_tool get_agent_tool_ids tool_from_row ◌>>=◌ ok_or
    raise pure
authorize_tool_call-verdict e tenant_id agent_id tool_id db =
    go (first (select (tool_at tenant_id tool_id) db.tools)) refl
  where
    go :
        (o : Option ToolRow)
        → first (select (tool_at tenant_id tool_id) db.tools) ≡ o
        → authorize_tool_call e tenant_id agent_id tool_id db
          ≡ (verdict o (contains (bound_ids e tenant_id agent_id db) tool_id), db)
    go none q = rw q refl
    go (some row) q = elim (Option-cases row.deleted_at) [
      | inr (d, p) ↦ rw (q, p) refl
      | inl p ↦ elim (Bool-cases (contains (bound_ids e tenant_id agent_id db) tool_id)) [
        | inl c ↦ rw (q, p, c) refl
        | inr c ↦ rw (q, p, c) refl
      ]
    ]

-- An id that is among those of some rows is that of one of them.
contains-map :
    (f : AgentToolRow → ℕ) (rows : List AgentToolRow) (id : ℕ)
    → contains (map f rows) id ≡ true
    → (row : AgentToolRow) × Mem row rows × (f row ≡ id)
contains-map f [] id h = absurd (ground arith)
contains-map f (row ∷ rows) id h = elim (Bool-cases (f row == id)) [
  | inl e ↦ (row, mem-cons_self, ground (arith, e))
  | inr e ↦
      let (other, m, same) = contains-map f rows id (ground (arith, e, h)) in
      (other, mem-cons_of_mem row m, same)
]

-- The tenant has the tool, active.
abbrev pub IsOwned : ℕ → ℕ → ToolRecord → Db → Type 0
IsOwned tenant_id tool_id tool db =
    (row : ToolRow) × Mem row db.tools
    × (row.tenant_id ≡ tenant_id)
    × (row.id ≡ tool_id)
    × (row.deleted_at ≡ none)
    × (tool ≡ tool_from_row row)

-- The tenant has bound the tool to the agent.
abbrev pub IsBound : ℕ → ℕ → ℕ → Db → Type 0
IsBound tenant_id agent_id tool_id db =
    (b : AgentToolRow) × Mem b db.agent_tools
    × (b.tenant_id ≡ tenant_id)
    × (b.agent_id ≡ agent_id)
    × (b.tool_id ≡ tool_id)

module _ (e : Engine) (tenant_id agent_id tool_id : ℕ) (db : Db) where
  bound_ids-IsBound :
      contains (bound_ids e tenant_id agent_id db) tool_id ≡ true
      → IsBound tenant_id agent_id tool_id db
  bound_ids-IsBound h =
      let query = binding_of tenant_id agent_id in
      let (b, m, same) = contains-map (λ b. b.tool_id) _ tool_id h in
      let kept : Mem b (select query db.agent_tools) =
        Perm.subset (e.order_by-perm (λ b. b.created_at) (select query db.agent_tools)) b m in
      let holds = select-holds query db.agent_tools b kept in
      (
        b,
        mem_of_mem-select query db.agent_tools b kept,
        ground (arith, holds),
        ground (arith, holds),
        same,
      )

  -- What an allowed call rests on.
  allowed-facts :
      (o : Option ToolRow) (bound : Bool) (tool : ToolRecord)
      → verdict o bound ≡ ok tool
      → (row : ToolRow) × (o ≡ some row)
        × (row.deleted_at ≡ none)
        × (tool ≡ tool_from_row row)
        × (bound ≡ true)
  allowed-facts none bound tool h = absurd (ground (arith, h))
  allowed-facts (some row) bound tool h = elim (Option-cases row.deleted_at) [
    | inr (d, p) ↦ absurd (ground (arith, rw p at h))
    | inl p ↦ (row, refl, p, ground (arith, rw p at h), ground (arith, rw p at h))
  ]

  -- A tool call is allowed only for an active tool that the tenant itself has, and that the tenant has
  -- bound to the agent; the tool that comes back is that one, and the database stays as it is.
  pub authorize_tool_call-IsOwned :
      (tool : ToolRecord) (db' : Db)
      → authorize_tool_call e tenant_id agent_id tool_id db ≡ (ok tool, db')
      → IsOwned tenant_id tool_id tool db × IsBound tenant_id agent_id tool_id db × (db' ≡ db)
  authorize_tool_call-IsOwned tool db' h =
      let answer = sym (authorize_tool_call-verdict e tenant_id agent_id tool_id db) ∙ h in
      let (row, found, active, same, bound) = allowed-facts _ _ tool (ap (λ x. x.0) answer) in
      let holds = first-holds (tool_at tenant_id tool_id) db.tools row found in
      (
        (
          row,
          mem-first (tool_at tenant_id tool_id) db.tools row found,
          ground (arith, holds),
          ground (arith, holds),
          active,
          same,
        ),
        bound_ids-IsBound bound,
        sym (ap (λ x. x.1) answer),
      )

  -- A call of a tool that the tenant has no row of, be it another tenant's or nobody's, is refused as
  -- not allowed for the agent, whatever the tenant's bindings are, and the database stays as it is.
  pub authorize_tool_call_foreign :
      ((row : ToolRow) → Mem row db.tools → row.tenant_id ≡ tenant_id → row.id ≢ tool_id)
      → authorize_tool_call e tenant_id agent_id tool_id db
        ≡ (err (bad_request "tool_not_allowed_for_agent"), db)
  authorize_tool_call_foreign foreign =
      let missing : select (tool_at tenant_id tool_id) db.tools ≡ [] =
        select-nil (tool_at tenant_id tool_id) db.tools (
          none-exists (tool_at tenant_id tool_id) db.tools
            (λ row m. ground (arith, foreign row m))) in
      authorize_tool_call-verdict e tenant_id agent_id tool_id db ∙ rw missing refl
