-- ===== src/Toolbox/Names.antt =====
-- No history of the server gives two active tools of a tenant one name.
use multi_tenant_agent_platf.Prelude.{
  ℕ, ◌≡◌, ap, sym, ◌∙◌, none, false, List, [], ◌∷◌, ◌++◌, arith, inl, inr, Bool-cases, eq_iff,
}
use multi_tenant_agent_platf.Exec.Moves.{IsPreorder, keeping-IsPreorder}
use multi_tenant_agent_platf.Rows.{count, update, exists}
use multi_tenant_agent_platf.Rows.Filtered.{count-append, count-update-le, count-eq-zero}
use multi_tenant_agent_platf.Db.{Db, ToolRow}
use multi_tenant_agent_platf.Db.Tools.{same_tool_name, tool_violation, active_tool_at}
use multi_tenant_agent_platf.Runtime.{Services}
use multi_tenant_agent_platf.Scheduler.{App}
use multi_tenant_agent_platf.System.{Reach}
use multi_tenant_agent_platf.Frames.Server.{Reach-Moves}
use multi_tenant_agent_platf.Frames.ToolTable.{
  ToolChanges, OnTools-IsPreorder, OnTools-Writes, OnTools-create_tenant, deleted,
}
use multi_tenant_agent_platf.Toolbox.{AreNamesUnique, active_named}

abbrev KeepsUnique : List ToolRow → List ToolRow → Type 0
KeepsUnique before after = AreNamesUnique before → AreNamesUnique after

KeepsUnique-IsPreorder : IsPreorder KeepsUnique
KeepsUnique-IsPreorder = keeping-IsPreorder AreNamesUnique

unused_name :
    (row : ToolRow) (db : Db)
    → tool_violation row db ≡ none
    → exists (same_tool_name row) db.tools ≡ false
unfolding tool_violation
unused_name row db h = ground arith

added-KeepsUnique :
    (row : ToolRow) (db : Db)
    → tool_violation row db ≡ none
    → KeepsUnique db.tools (db.tools ++ row ∷ [])
unfolding count
added-KeepsUnique row db clear unique t name = elim (Bool-cases (active_named t name row)) [
  | inr e ↦
      rw (count-append (active_named t name) db.tools (row ∷ []), e) (omega (arith, unique t name))
  | inl e ↦
      let p : row.tenant_id ≡ t = ground arith in
      let q : row.name ≡ name = ground (arith, eq_iff row.name name) in
      let free : exists (active_named t name) db.tools ≡ false =
        ap (λ k. exists (active_named k name) db.tools) (sym p)
        ∙ ap (λ n. exists (active_named row.tenant_id n) db.tools) (sym q)
        ∙ unused_name row db clear in
      rw (count-append (active_named t name) db.tools (row ∷ []), e)
        (omega (arith, count-eq-zero _ db.tools free))
]

removed-KeepsUnique :
    (a tool_id now : ℕ) (rows : List ToolRow)
    → KeepsUnique rows (update (active_tool_at a tool_id) (deleted now) rows)
removed-KeepsUnique a tool_id now rows unique t name = omega (
  arith,
  unique t name,
  count-update-le (active_named t name) (active_tool_at a tool_id) (deleted now) rows
      (λ x h. absurd (ground arith)),
)

KeepsUnique-ToolChanges : ToolChanges KeepsUnique
KeepsUnique-ToolChanges = record {
  added = λ row db clear active. added-KeepsUnique row db clear;
  removed = removed-KeepsUnique;
}

-- Whatever requests and runs the server goes through, no tenant ever has two active tools of one name,
-- provided that none has at the start.
pub Reach-AreNamesUnique :
    (v : Services) (start app : App)
    → AreNamesUnique start.db.tools
    → Reach v start app
    → AreNamesUnique app.db.tools
Reach-AreNamesUnique v start app unique r =
    Reach-Moves (OnTools-IsPreorder KeepsUnique-IsPreorder) v
      (OnTools-Writes KeepsUnique-IsPreorder v.engine KeepsUnique-ToolChanges)
      (OnTools-create_tenant KeepsUnique-IsPreorder v.engine) start r unique
