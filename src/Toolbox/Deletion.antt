-- ===== src/Toolbox/Deletion.antt =====
-- A deleted tool stays deleted, and no agent may call it.
use multi_tenant_agent_platf.Prelude.{
  ℕ, ◌≡◌, ◌≢◌, refl, ap, ◌∙◌, arith, Bool, false, Option, none, some, List, [], ◌∷◌, ◌++◌, ◌==◌,
  ==_iff, Bool-cases, inl, inr,
}
use multi_tenant_agent_platf.Rows.{exists, count, update, select, first}
use multi_tenant_agent_platf.Rows.Filtered.{
  exists-append, exists-update, count-append, count-update-le, count-update_self, first-holds,
  first-of_none, exists-count,
}
use multi_tenant_agent_platf.Exec.{ok}
use multi_tenant_agent_platf.Exec.Moves.{IsPreorder, keeping-IsPreorder}
use multi_tenant_agent_platf.Db.{Db, ToolRow}
use multi_tenant_agent_platf.Db.Tools.{
  ToolRecord, active_tool_at, tool_at, tool_violation, delete_tool,
}
use multi_tenant_agent_platf.Runtime.{Services}
use multi_tenant_agent_platf.Runtime.Decision.{authorize_tool_call, contains}
use multi_tenant_agent_platf.Runtime.Authorization.{verdict, bound_ids, authorize_tool_call-verdict}
use multi_tenant_agent_platf.Scheduler.{App}
use multi_tenant_agent_platf.System.{Reach}
use multi_tenant_agent_platf.Frames.Server.{Reach-Moves}
use multi_tenant_agent_platf.Frames.ToolTable.{
  ToolChanges, OnTools-IsPreorder, OnTools-Writes, OnTools-create_tenant, deleted,
}
use multi_tenant_agent_platf.Toolbox.{Deleted}

-- The primary key refuses a second tool of the same id.
fresh_id :
    (row : ToolRow) (db : Db)
    → tool_violation row db ≡ none
    → exists (λ u. u.id == row.id) db.tools ≡ false
unfolding tool_violation
fresh_id row db h = ground arith

module _ (t id : ℕ) where
  abbrev Stays : List ToolRow → List ToolRow → Type 0
  Stays xs ys = Deleted t id xs → Deleted t id ys

  Stays-IsPreorder : IsPreorder Stays
  Stays-IsPreorder = keeping-IsPreorder (Deleted t id)

  added-Deleted :
      (row : ToolRow) (db : Db)
      → tool_violation row db ≡ none
      → Stays db.tools (db.tools ++ row ∷ [])
  unfolding count
  added-Deleted row db clear (there, gone) =
      let other : (row.id == id) ≡ false = elim (Bool-cases (row.id == id)) [
        | inl same ↦ absurd (
            cc (
              fresh_id row db clear,
              there,
              ap (λ k. exists (λ u. u.id == k) db.tools) ((==_iff row.id id).0 same),
            ))
        | inr e ↦ e
      ] in
      (
        rw (exists-append (λ u. u.id == id) db.tools (row ∷ []), there) refl,
        rw (count-append (active_tool_at t id) db.tools (row ∷ []), gone) (ground arith),
      )

  removed-Deleted :
      (a tool_id now : ℕ) (rows : List ToolRow)
      → Stays rows (update (active_tool_at a tool_id) (deleted now) rows)
  removed-Deleted a tool_id now rows (there, gone) = (
    exists-update (λ u. u.id == id) _ _ rows (λ x. refl) ∙ there,
    omega (
      arith,
      gone,
      count-update-le (active_tool_at t id) (active_tool_at a tool_id) (deleted now) rows
          λ x h. absurd (ground arith),
    ),
  )

  Stays-ToolChanges : ToolChanges Stays
  Stays-ToolChanges = record {
    added = λ row db clear active. added-Deleted row db clear;
    removed = removed-Deleted;
  }

  -- The row that is found is a deleted one, so the table has no place for an allowed call.
  Deleted_refused :
      (rows : List ToolRow) (bound : Bool) (tool : ToolRecord)
      → count (active_tool_at t id) rows ≡ 0
      → verdict (first (select (tool_at t id) rows)) bound ≢ ok tool
  Deleted_refused rows bound tool gone = go (first (select (tool_at t id) rows)) refl
    where
      go : (o : Option ToolRow) → first (select (tool_at t id) rows) ≡ o → verdict o bound ≢ ok tool
      go none q h = absurd (ground arith)
      go (some row) q h =
          let found = first-holds (tool_at t id) rows row q in
          let inactive = first-of_none (tool_at t id) (active_tool_at t id) rows row q gone in
          ground arith

  delete_tool-Deleted :
      (v : Services) (db : Db)
      → (delete_tool v.engine t id db).0 ≡ ok tt
      → Deleted t id (delete_tool v.engine t id db).1.tools
  unfolding delete_tool
  delete_tool-Deleted v db h = (
    exists-update (λ u. u.id == id) _ _ db.tools (λ x. refl)
        ∙ exists-count (active_tool_at t id) (λ u. u.id == id) db.tools (λ x g. ground arith)
            (ground arith),
    count-update_self (active_tool_at t id) _ db.tools λ x. ground arith,
  )

-- Once a tool of a tenant has been deleted, no agent's call of it is allowed again, whatever requests
-- and runs come in between.
pub deleted_tool_refused :
    (v : Services) (t tool_id agent_id : ℕ) (tool : ToolRecord) (start app : App)
    → (delete_tool v.engine t tool_id start.db).0 ≡ ok tt
    → Reach v (record start { db = (delete_tool v.engine t tool_id start.db).1 }) app
    → (authorize_tool_call v.engine t agent_id tool_id app.db).0 ≢ ok tool
deleted_tool_refused v t tool_id agent_id tool start app done later =
    let (_, gone) =
      Reach-Moves (OnTools-IsPreorder (Stays-IsPreorder t tool_id)) v
        (OnTools-Writes (Stays-IsPreorder t tool_id) v.engine (Stays-ToolChanges t tool_id))
        (OnTools-create_tenant (Stays-IsPreorder t tool_id) v.engine) _ later
        (delete_tool-Deleted t tool_id v start.db done) in
    rw (authorize_tool_call-verdict v.engine t agent_id tool_id app.db) (
      Deleted_refused t tool_id app.db.tools
        (contains (bound_ids v.engine t agent_id app.db) tool_id) tool gone)
