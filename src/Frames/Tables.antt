-- ===== src/Frames/Tables.antt =====
-- A relation on one table alone: what the statements that write that table must keep.
use multi_tenant_agent_platf.Prelude.{ℕ, String, ◌≡◌, refl, Option, none, some, List, [], ◌∷◌, ◌++◌}
use multi_tenant_agent_platf.Core.{RunStatus}
use multi_tenant_agent_platf.Error.{DbError}
use multi_tenant_agent_platf.Exec.Moves.{Moves, IsPreorder}
use multi_tenant_agent_platf.Rows.{update}
use multi_tenant_agent_platf.Db.{Engine, Db, RunRow, admit}
use multi_tenant_agent_platf.Db.Tenants.{create_tenant, create_api_key}
use multi_tenant_agent_platf.Db.Tools.{create_tool, delete_tool}
use multi_tenant_agent_platf.Db.Agents.{insert_agent, insert_binding}
use multi_tenant_agent_platf.Db.Runs.{
  insert_run, run_violation, mark_run_failed, begin_run_execution, finalize_run, set_failed,
  set_running, set_finished, run_at, pending_run_at,
}
use multi_tenant_agent_platf.Db.Traces.{append_event}
use multi_tenant_agent_platf.Frames.{IsFinal, RunWrites, TableWrites, Writes, admit_moves}

-- An INSERT adds its row only where no constraint refuses it.
pub admitted_moves :
    {R : Db → Db → Type 0} {A : Type 0} (v : Option DbError) (x : A) (after before : Db)
    → IsPreorder R
    → (v ≡ none → R before after)
    → R before (admit v x after before).1
unfolding admit
admitted_moves none x after before o h = h refl
admitted_moves (some e) x after before o h = o.stay before

abbrev pub OnRuns : (List RunRow → List RunRow → Type 0) → Db → Db → Type 0
OnRuns S before after = S before.runs after.runs

pub OnRuns-IsPreorder :
    {S : List RunRow → List RunRow → Type 0} → IsPreorder S → IsPreorder (OnRuns S)
OnRuns-IsPreorder o = record {
  stay = λ s. o.stay s.runs;
  chain = λ s t u f g. o.chain s.runs t.runs u.runs f g;
}

-- What a relation on the runs has to keep: the updates of one run, and the new rows.
pub record RunUpdates (S : List RunRow → List RunRow → Type 0) (a run_id : ℕ) : Type 0 where
  pub failed :
      (reason : String) (now : ℕ) (rows : List RunRow)
      → S rows (update (run_at a run_id) (set_failed reason now) rows)
  pub started :
      (now : ℕ) (rows : List RunRow)
      → S rows (update (pending_run_at a run_id) (set_running now) rows)
  pub finished :
      (status : RunStatus) (answer reason : Option String) (now : ℕ) (rows : List RunRow)
      → IsFinal status
      → S rows (update (run_at a run_id) (set_finished status answer reason now) rows)

pub record RunChanges (S : List RunRow → List RunRow → Type 0) : Type 0 where
  pub added :
      (row : RunRow) (db : Db) → run_violation row db ≡ none → S db.runs (db.runs ++ row ∷ [])
  pub updated : (a run_id : ℕ) → RunUpdates S a run_id

module _ {S : List RunRow → List RunRow → Type 0} (o : IsPreorder S) (e : Engine) where
  pub OnRuns-create_tenant : (name : String) → Moves (OnRuns S) (create_tenant e name)
  unfolding create_tenant
  OnRuns-create_tenant name = record {
    at = λ db. admit_moves _ _ _ db (OnRuns-IsPreorder o) (o.stay db.runs);
  }

  kept :
      {A : Type 0} (v : Option DbError) (x : A) (after before : Db)
      → S before.runs after.runs
      → S before.runs (admit v x after before).1.runs
  kept v x after before h = admit_moves v x after before (OnRuns-IsPreorder o) h

  pub OnRuns-TableWrites :
      ((row : RunRow) (db : Db) → run_violation row db ≡ none → S db.runs (db.runs ++ row ∷ []))
      → (a : ℕ) → TableWrites (OnRuns S) e a
  OnRuns-TableWrites added a = record {
    api_key = λ key_prefix key_hash.
        unfold create_api_key in record { at = λ db. kept _ _ _ db (o.stay db.runs) };
    tool = λ name schema handler.
        unfold create_tool in record { at = λ db. kept _ _ _ db (o.stay db.runs) };
    tool_deletion = λ tool_id. unfold delete_tool in record { at = λ db. o.stay db.runs };
    agent = λ row own. unfold insert_agent in record { at = λ db. kept _ _ _ db (o.stay db.runs) };
    binding =
        λ row own. unfold insert_binding in record { at = λ db. kept _ _ _ db (o.stay db.runs) };
    run = λ row own.
        unfold insert_run in
        record { at = λ db. admitted_moves _ _ _ db (OnRuns-IsPreorder o) (added row db) };
  }

  pub OnRuns-RunWrites : (a run_id : ℕ) → RunUpdates S a run_id → RunWrites (OnRuns S) e a run_id
  OnRuns-RunWrites a run_id u = record {
    failure = λ reason. unfold mark_run_failed in record { at = λ db. u.failed reason _ db.runs };
    start = unfold begin_run_execution in record { at = λ db. u.started _ db.runs };
    finish = λ status answer reason final.
        unfold finalize_run in
        record { at = λ db. u.finished status answer reason _ db.runs final };
    event = λ event_type payload.
        unfold append_event in record { at = λ db. kept _ _ _ db (o.stay db.runs) };
  }

  pub OnRuns-Writes : RunChanges S → (a : ℕ) → Writes (OnRuns S) e a
  OnRuns-Writes c a = record {
    tables = OnRuns-TableWrites c.added a;
    runs = λ run_id. OnRuns-RunWrites a run_id (c.updated a run_id);
  }
