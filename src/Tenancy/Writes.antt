-- ===== src/Tenancy/Writes.antt =====
-- Every statement that writes leaves the other tenants' rows alone.
use multi_tenant_agent_platf.Prelude.{
  ℕ, ◌+◌, String, ◌≡◌, ◌≢◌, refl, ap, arith, Bool, Option, List, ◌==◌, ==_ne, ◌&&◌,
}
use multi_tenant_agent_platf.Json.{Value}
use multi_tenant_agent_platf.Core.{RunStatus}
use multi_tenant_agent_platf.Rows.{select, update}
use multi_tenant_agent_platf.Rows.Filtered.{select-insert_other, select-update_other}
use multi_tenant_agent_platf.Exec.Moves.{Moves}
use multi_tenant_agent_platf.Db.{Engine, Db, AgentRow, AgentToolRow, RunRow}
use multi_tenant_agent_platf.Db.Tenants.{create_tenant, create_api_key}
use multi_tenant_agent_platf.Db.Tools.{create_tool, delete_tool, new_tool}
use multi_tenant_agent_platf.Db.Runs.{
  set_failed, set_running, set_finished, insert_run, mark_run_failed, begin_run_execution,
  finalize_run,
}
use multi_tenant_agent_platf.Db.Traces.{append_event, new_event}
use multi_tenant_agent_platf.Frames.{Writes, admit_moves}
use multi_tenant_agent_platf.Db.Agents.{insert_agent, insert_binding}
use multi_tenant_agent_platf.Tenancy.{view, Untouched, Untouched-IsPreorder}

pub create_tenant-Untouched :
    (t : ℕ) (e : Engine) (name : String) → Moves (Untouched t) (create_tenant e name)
unfolding create_tenant
create_tenant-Untouched t e name = record {
  at = λ db. admit_moves _ _ _ db (Untouched-IsPreorder t) refl;
}

-- The statements of tenant `a`, seen by another tenant.
module _ (a t : ℕ) (other : a ≢ t) (e : Engine) where
  create_api_key-Untouched :
      (key_prefix key_hash : String) → Moves (Untouched t) (create_api_key e a key_prefix key_hash)
  unfolding create_api_key
  create_api_key-Untouched key_prefix key_hash = record {
    at = λ db. admit_moves _ _ _ db (Untouched-IsPreorder t) (
        ap (λ rows. record (view t db) { api_keys = rows })
          (select-insert_other (λ r. r.tenant_id == t) db.api_keys _ (==_ne a t other)));
  }

  create_tool-Untouched :
      (name : String) (schema handler : Value)
      → Moves (Untouched t) (create_tool e a name schema handler)
  unfolding create_tool new_tool
  create_tool-Untouched name schema handler = record {
    at = λ db. admit_moves _ _ _ db (Untouched-IsPreorder t) (
        ap (λ rows. record (view t db) { tools = rows })
          (select-insert_other (λ r. r.tenant_id == t) db.tools _ (==_ne a t other)));
  }

  append_event-Untouched :
      (run_id : ℕ) (event_type : String) (payload : Value)
      → Moves (Untouched t) (append_event e a run_id event_type payload)
  unfolding append_event new_event
  append_event-Untouched run_id event_type payload = record {
    at = λ db. admit_moves _ _ _ db (Untouched-IsPreorder t) (
        ap (λ rows. record (view t db) { run_traces = rows })
          (select-insert_other (λ r. r.tenant_id == t) db.run_traces _ (==_ne a t other)));
  }

  -- An UPDATE whose WHERE clause demands the tenant, and whose SET keeps it.
  update_other {ℓ} :
      {A : Type ℓ} (tenant : A → ℕ) (q : A → Bool) (f : A → A) (rows : List A)
      → ((x : A) → tenant (f x) ≡ tenant x)
      → select (λ r. tenant r == t) (update (λ r. tenant r == a && q r) f rows)
        ≡ select (λ r. tenant r == t) rows
  update_other tenant q f rows keeps =
      select-update_other (λ r. tenant r == t) (λ r. tenant r == a && q r) f rows
        λ x h. ground (arith, keeps x)

  delete_tool-Untouched : (tool_id : ℕ) → Moves (Untouched t) (delete_tool e a tool_id)
  unfolding delete_tool
  delete_tool-Untouched tool_id = record {
    at = λ db.
        ap (λ rows. record (view t db) { tools = rows })
          (update_other (λ r. r.tenant_id) _ _ db.tools λ r. refl);
  }

  -- An UPDATE of the tenant's runs.
  runs_other :
      (q : RunRow → Bool) (f : RunRow → RunRow) (db : Db) (ticks : ℕ)
      → ((r : RunRow) → (f r).tenant_id ≡ r.tenant_id)
      → Untouched t db
          (record db { runs = update (λ r. r.tenant_id == a && q r) f db.runs; ticks = ticks })
  runs_other q f db ticks keeps =
      ap (λ rows. record (view t db) { runs = rows })
        (update_other (λ r. r.tenant_id) q f db.runs keeps)

  mark_run_failed-Untouched :
      (run_id : ℕ) (reason : String) → Moves (Untouched t) (mark_run_failed e a run_id reason)
  unfolding mark_run_failed set_failed
  mark_run_failed-Untouched run_id reason = record {
    at = λ db. runs_other _ _ db (db.ticks + 1) λ r. refl;
  }

  begin_run_execution-Untouched :
      (run_id : ℕ) → Moves (Untouched t) (begin_run_execution e a run_id)
  unfolding begin_run_execution set_running
  begin_run_execution-Untouched run_id = record {
    at = λ db. runs_other _ _ db (db.ticks + 1) λ r. refl;
  }

  finalize_run-Untouched :
      (run_id : ℕ) (status : RunStatus) (answer reason : Option String)
      → Moves (Untouched t) (finalize_run e a run_id status answer reason)
  unfolding finalize_run set_finished
  finalize_run-Untouched run_id status answer reason = record {
    at = λ db. runs_other _ _ db (db.ticks + 1) λ r. refl;
  }

  insert_agent-Untouched :
      (row : AgentRow) → row.tenant_id ≡ a → Moves (Untouched t) (insert_agent row)
  unfolding insert_agent
  insert_agent-Untouched row own = record {
    at = λ db. admit_moves _ _ _ db (Untouched-IsPreorder t) (
        ap (λ rows. record (view t db) { agents = rows })
          (select-insert_other (λ r. r.tenant_id == t) db.agents row (rw own (==_ne a t other))));
  }

  insert_binding-Untouched :
      (row : AgentToolRow) → row.tenant_id ≡ a → Moves (Untouched t) (insert_binding row)
  unfolding insert_binding
  insert_binding-Untouched row own = record {
    at = λ db. admit_moves _ _ _ db (Untouched-IsPreorder t) (
        ap (λ rows. record (view t db) { agent_tools = rows })
          (select-insert_other (λ r. r.tenant_id == t) db.agent_tools row
            (rw own (==_ne a t other))));
  }

  insert_run-Untouched : (row : RunRow) → row.tenant_id ≡ a → Moves (Untouched t) (insert_run row)
  unfolding insert_run
  insert_run-Untouched row own = record {
    at = λ db. admit_moves _ _ _ db (Untouched-IsPreorder t) (
        ap (λ rows. record (view t db) { runs = rows })
          (select-insert_other (λ r. r.tenant_id == t) db.runs row (rw own (==_ne a t other))));
  }

  pub Untouched-Writes : Writes (Untouched t) e a
  Untouched-Writes = record {
    tables = record {
      api_key = create_api_key-Untouched;
      tool = create_tool-Untouched;
      tool_deletion = delete_tool-Untouched;
      agent = insert_agent-Untouched;
      binding = insert_binding-Untouched;
      run = insert_run-Untouched;
    };
    runs = λ run_id. record {
      failure = mark_run_failed-Untouched run_id;
      start = begin_run_execution-Untouched run_id;
      finish = λ status answer reason _. finalize_run-Untouched run_id status answer reason;
      event = append_event-Untouched run_id;
    };
  }
