-- ===== src/Toolbox/Refinement.antt =====
-- The statements on tools implement the collection of a tenant's tools.
use mathlib.Core.Quot
use mathlib.Core.List.{perm_append_singleton, map-append, Pairwise, Pairwise-map}
use mathlib.Core.List.Perm
use native.Mathlib.Bridge.{le_prop}
use multi_tenant_agent_platf.Prelude.{
  ℕ, ◌≤◌, ◌≡◌, ◌≢◌, refl, ap, ◌∙◌, String, true, false, not, List, [], ◌∷◌, ◌++◌, map, ◌==◌, arith,
  none, some, is_none, inl, inr, Bool-cases, if◌then◌else◌,
}
use multi_tenant_agent_platf.Json.{Value, is_object}
use multi_tenant_agent_platf.Error.{constraint, duplicate_name, not_found}
use multi_tenant_agent_platf.Exec.{ok, err}
use multi_tenant_agent_platf.Rows.{select, exists, update, count}
use multi_tenant_agent_platf.Rows.Filtered.{select-append}
use multi_tenant_agent_platf.Db.{Engine, Db, ToolRow, admit, on_constraint}
use multi_tenant_agent_platf.Db.Tools.{
  ToolRecord, tool_from_row, active_tool_at, same_tool_name, tool_violation, new_tool, create_tool,
  list_tools, delete_tool,
}
use multi_tenant_agent_platf.Toolbox.Contents.{
  any_tool, keep, put, has_name, has_id, active_of, contents,
}

-- The rows of a tenant that are active, as the tools that they stand for.
abbrev active : ℕ → List ToolRow → List ToolRecord
active t rows = map tool_from_row (select (active_of t) rows)

named-active :
    (row : ToolRow) (rows : List ToolRow)
    → exists (same_tool_name row) rows ≡ exists (has_name row.name) (active row.tenant_id rows)
unfolding exists select tool_from_row
named-active row [] = refl
named-active row (x ∷ xs) = ground (arith, named-active row xs)

active-count :
    (t id : ℕ) (rows : List ToolRow)
    → (count (active_tool_at t id) rows == 0) ≡ not (exists (has_id id) (active t rows))
unfolding exists select tool_from_row count
active-count t id [] = refl
active-count t id (x ∷ xs) = ground (arith, active-count t id xs)

module _ (mark : ToolRow → ToolRow)
    (gone : (r : ToolRow) → is_none (mark r).deleted_at ≡ false) where
  removed-active :
      (t id : ℕ) (rows : List ToolRow)
      → active t (update (active_tool_at t id) mark rows)
        ≡ select (λ r. not (has_id id r)) (active t rows)
  unfolding select tool_from_row update
  removed-active t id [] = refl
  removed-active t id (x ∷ xs) = ground (arith, gone x, removed-active t id xs)

  other-active :
      (t t' id : ℕ) (rows : List ToolRow)
      → t ≢ t'
      → active t' (update (active_tool_at t id) mark rows) ≡ active t' rows
  unfolding select tool_from_row update
  other-active t t' id [] ne = refl
  other-active t t' id (x ∷ xs) ne = ground (arith, gone x, other-active t t' id xs ne)

-- For the collection of a tenant's tools, `delete_tool` is the removal of the tool with the identifier:
-- it succeeds exactly if there is one, and reports "not found" otherwise; what is left are the tools with
-- another identifier, and the collection of every other tenant stays as it is.
pub delete_tool-keep :
    (e : Engine) (t other tool_id : ℕ) (db : Db)
    → t ≢ other
    → ((delete_tool e t tool_id db).0
        ≡ (if any_tool (has_id tool_id) (contents t db) then ok tt else err not_found))
      × (contents t (delete_tool e t tool_id db).1
          ≡ keep (λ r. not (has_id tool_id r)) (contents t db))
      × (contents other (delete_tool e t tool_id db).1 ≡ contents other db)
unfolding delete_tool any_tool keep
delete_tool-keep e t other tool_id db ne = (
  rw (active-count t tool_id db.tools)
      (elim (Bool-cases (exists (has_id tool_id) (active t db.tools))) [
        | inl h ↦ rw h refl
        | inr h ↦ rw h refl
      ]),
  ap Quot.mk (removed-active _ (λ r. refl) t tool_id db.tools),
  ap Quot.mk (other-active _ (λ r. refl) t other tool_id db.tools ne),
)

-- `list_tools` changes nothing and gives the collection of the tenant's tools, each as often as it is
-- there, in the order of their creation.
pub list_tools-contents :
    (e : Engine) (t : ℕ) (db : Db)
    → (tools : List ToolRecord) × (list_tools e t db ≡ (ok tools, db))
      × (Quot.mk tools ≡ contents t db)
      × Pairwise (λ a b. a.created_at ≤ b.created_at) tools
unfolding list_tools tool_from_row
list_tools-contents e t db =
    let rows = e.order_by (λ r. r.created_at) (select (active_of t) db.tools) in
    (
      map tool_from_row rows,
      refl,
      Quot.sound (Perm.map tool_from_row (e.order_by-perm (λ r. r.created_at) _)),
      (Pairwise-map (λ a b. le_prop) tool_from_row {l = rows}).1
          (e.order_by-sorted (λ r. r.created_at) _),
    )

added-active :
    (t : ℕ) (row : ToolRow) (rows : List ToolRow)
    → active_of t row ≡ true
    → active t (rows ++ row ∷ []) ≡ active t rows ++ tool_from_row row ∷ []
unfolding select tool_from_row
added-active t row rows h =
    rw (select-append (active_of t) rows (row ∷ []), h)
      (map-append tool_from_row (select (active_of t) rows) (row ∷ []))

-- The only thing that may be wrong with a row with objects of an existing tenant under a new identifier is
-- its name.
violation-name :
    (row : ToolRow) (db : Db)
    → is_object row.input_schema ≡ true
    → is_object row.mock_handler ≡ true
    → exists (λ u. u.id == row.id) db.tools ≡ false
    → exists (λ u. u.id == row.tenant_id) db.tenants ≡ true
    → tool_violation row db ≡ (
        if exists (same_tool_name row) db.tools
        then some (constraint "uq_tools_tenant_name_active")
        else none)
unfolding tool_violation
violation-name row db schema handler fresh tenant = rw (schema, handler, fresh, tenant) refl

-- For the collection of a tenant's tools, `create_tool` is the addition of the new tool: it reports
-- "duplicate name" and adds nothing exactly if a tool of the collection has the name. The tenant exists,
-- schema and handler are objects, and gen_random_uuid() gives an identifier that no tool has.
pub create_tool-put :
    (e : Engine) (t : ℕ) (name : String) (input_schema mock_handler : Value) (db : Db)
    → is_object input_schema ≡ true
    → is_object mock_handler ≡ true
    → exists (λ u. u.id == e.gen_random_uuid db.ticks) db.tools ≡ false
    → exists (λ u. u.id == t) db.tenants ≡ true
    → let tool = tool_from_row (new_tool e t name input_schema mock_handler db) in
      let taken = any_tool (has_name name) (contents t db) in
      ((create_tool e t name input_schema mock_handler db).0
        ≡ (if taken then err duplicate_name else ok tool))
      × (contents t (create_tool e t name input_schema mock_handler db).1
          ≡ (if taken then contents t db else put tool (contents t db)))
unfolding create_tool new_tool any_tool put admit on_constraint
create_tool-put e t name input_schema mock_handler db schema handler fresh tenant =
    let row = new_tool e t name input_schema mock_handler db in
    let clear =
      violation-name row db schema handler fresh tenant
      ∙ ap (λ b. if b then some (constraint "uq_tools_tenant_name_active") else none)
          (named-active row db.tools) in
    elim (Bool-cases (exists (has_name name) (active t db.tools))) [
      | inl h ↦ rw (clear, h) (refl, refl)
      | inr h ↦
          rw (clear, h)
            (
              refl,
              ap Quot.mk (added-active t row db.tools (ground arith))
                  ∙ Quot.sound (perm_append_singleton _ _),
            )
    ]
