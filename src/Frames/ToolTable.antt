-- ===== src/Frames/ToolTable.antt =====
-- A relation on the tools alone: what the two statements that write that table must keep.
use multi_tenant_agent_platf.Prelude.{ℕ, String, ◌≡◌, refl, Option, none, some, List, [], ◌∷◌, ◌++◌}
use multi_tenant_agent_platf.Error.{DbError}
use multi_tenant_agent_platf.Exec.Moves.{Moves, IsPreorder}
use multi_tenant_agent_platf.Rows.{update}
use multi_tenant_agent_platf.Db.{Engine, Db, ToolRow, admit}
use multi_tenant_agent_platf.Db.Tenants.{create_tenant, create_api_key}
use multi_tenant_agent_platf.Db.Tools.{
  create_tool, delete_tool, tool_violation, new_tool, active_tool_at,
}
use multi_tenant_agent_platf.Json.{Value}
use multi_tenant_agent_platf.Db.Agents.{insert_agent, insert_binding}
use multi_tenant_agent_platf.Db.Runs.{
  insert_run, mark_run_failed, begin_run_execution, finalize_run,
}
use multi_tenant_agent_platf.Db.Traces.{append_event}
use multi_tenant_agent_platf.Frames.{Writes, admit_moves}
use multi_tenant_agent_platf.Frames.Tables.{admitted_moves}

abbrev pub OnTools : (List ToolRow → List ToolRow → Type 0) → Db → Db → Type 0
OnTools S before after = S before.tools after.tools

pub OnTools-IsPreorder :
    {S : List ToolRow → List ToolRow → Type 0} → IsPreorder S → IsPreorder (OnTools S)
OnTools-IsPreorder o = record {
  stay = λ s. o.stay s.tools;
  chain = λ s t u f g. o.chain s.tools t.tools u.tools f g;
}

abbrev pub deleted : ℕ → ToolRow → ToolRow
deleted now r = record r { deleted_at = some now }

-- What a relation on the tools has to keep.
pub record ToolChanges (S : List ToolRow → List ToolRow → Type 0) : Type 0 where
  pub added :
      (row : ToolRow) (db : Db)
      → tool_violation row db ≡ none
      → row.deleted_at ≡ none
      → S db.tools (db.tools ++ row ∷ [])
  pub removed :
      (a tool_id now : ℕ) (rows : List ToolRow)
      → S rows (update (active_tool_at a tool_id) (deleted now) rows)

module _ {S : List ToolRow → List ToolRow → Type 0} (o : IsPreorder S) (e : Engine) where
  kept :
      {A : Type 0} (v : Option DbError) (x : A) (after before : Db)
      → S before.tools after.tools
      → S before.tools (admit v x after before).1.tools
  kept v x after before h = admit_moves v x after before (OnTools-IsPreorder o) h

  pub OnTools-create_tenant : (name : String) → Moves (OnTools S) (create_tenant e name)
  unfolding create_tenant
  OnTools-create_tenant name = record { at = λ db. kept _ _ _ db (o.stay db.tools) }

  create_tool-kept :
      ToolChanges S
      → (a : ℕ) (name : String) (schema handler : Value)
      → Moves (OnTools S) (create_tool e a name schema handler)
  unfolding create_tool new_tool
  create_tool-kept c a name schema handler = record {
    at = λ db.
        let row = new_tool e a name schema handler db in
        admitted_moves (tool_violation row db) _ _ db (OnTools-IsPreorder o)
          (λ clear. c.added row db clear refl);
  }

  pub OnTools-Writes : ToolChanges S → (a : ℕ) → Writes (OnTools S) e a
  OnTools-Writes c a = record {
    tables = record {
      api_key = λ key_prefix key_hash.
          unfold create_api_key in record { at = λ db. kept _ _ _ db (o.stay db.tools) };
      tool = create_tool-kept c a;
      tool_deletion =
          λ tool_id. unfold delete_tool in record { at = λ db. c.removed a tool_id _ db.tools };
      agent =
          λ row own. unfold insert_agent in record { at = λ db. kept _ _ _ db (o.stay db.tools) };
      binding =
          λ row own. unfold insert_binding in record { at = λ db. kept _ _ _ db (o.stay db.tools) };
      run = λ row own. unfold insert_run in record { at = λ db. kept _ _ _ db (o.stay db.tools) };
    };
    runs = λ run_id. record {
      failure = λ reason. unfold mark_run_failed in record { at = λ db. o.stay db.tools };
      start = unfold begin_run_execution in record { at = λ db. o.stay db.tools };
      finish = λ status answer reason final.
          unfold finalize_run in record { at = λ db. o.stay db.tools };
      event = λ event_type payload.
          unfold append_event in record { at = λ db. kept _ _ _ db (o.stay db.tools) };
    };
  }
