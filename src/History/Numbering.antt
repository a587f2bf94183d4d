-- ===== src/History/Numbering.antt =====
-- Every statement, and so every request and run, keeps the numbering and only adds events.
use mathlib.Core.List.{append-nil, append_assoc}
use Prim.Native.Nat.{max}
use multi_tenant_agent_platf.Prelude.{
  ℕ, suc, ◌+◌, ◌≡◌, refl, sym, ap, ◌∙◌, true, String, List, [], ◌∷◌, ◌++◌, arith, length, inl, inr,
  Bool-cases, Option,
}
use multi_tenant_agent_platf.Json.{Value}
use multi_tenant_agent_platf.Core.{RunStatus}
use multi_tenant_agent_platf.Rows.{max_of}
use multi_tenant_agent_platf.Rows.Filtered.{select-insert, select-insert_other}
use multi_tenant_agent_platf.Exec.Moves.{Moves, IsPreorder}
use multi_tenant_agent_platf.Db.{Engine, Db, TraceRow, AgentRow, AgentToolRow, RunRow}
use multi_tenant_agent_platf.Db.Tenants.{create_tenant, create_api_key}
use multi_tenant_agent_platf.Db.Tools.{create_tool, delete_tool}
use multi_tenant_agent_platf.Db.Agents.{insert_agent, insert_binding}
use multi_tenant_agent_platf.Db.Runs.{
  insert_run, mark_run_failed, begin_run_execution, finalize_run,
}
use multi_tenant_agent_platf.Db.Traces.{trace_of, last_seq, append_event, new_event}
use multi_tenant_agent_platf.Frames.{Writes, admit_moves}
use multi_tenant_agent_platf.History.{Numbered, events, IsNumbered, Extends}

pub max_of-Numbered :
    (n : ℕ) (rs : List TraceRow) → Numbered n rs → max n (max_of (λ r. r.seq) rs) ≡ n + length rs
unfolding max_of
max_of-Numbered n [] h = omega arith
max_of-Numbered n (r ∷ rs) (e, h) = ground (arith, max_of-Numbered (suc n) rs h)

Numbered-append :
    (n : ℕ) (rs : List TraceRow) (r : TraceRow)
    → Numbered n rs
    → r.seq ≡ suc (n + length rs)
    → Numbered n (rs ++ r ∷ [])
Numbered-append n [] r h e = (omega arith, tt)
Numbered-append n (s ∷ rs) r (f, h) e = (f, Numbered-append (suc n) rs r h (omega arith))

-- The log has only grown, and is numbered if it was.
abbrev pub Logs : Db → Db → Type 0
Logs before after = Extends before after × (IsNumbered before → IsNumbered after)

pub Logs-IsPreorder : IsPreorder Logs
Logs-IsPreorder = record {
  stay = λ s. (([], sym (append-nil s.run_traces)), λ h. h);
  chain = λ s t u f g. (
    (f.0.0 ++ g.0.0, g.0.1 ∙ ap (λ l. l ++ g.0.0) f.0.1 ∙ append_assoc s.run_traces f.0.0 g.0.0),
    λ h. g.1 (f.1 h),
  );
}

module _ (e : Engine) (a run_id : ℕ) (event_type : String) (payload : Value) (db : Db) where
  added : Db
  added = record db {
    run_traces = db.run_traces ++ new_event e a run_id event_type payload db ∷ [];
    ticks = db.ticks + 1;
  }

  new_event-IsNumbered : IsNumbered db → IsNumbered added
  unfolding new_event last_seq added
  new_event-IsNumbered h t r =
      let row = new_event e a run_id event_type payload db in
      elim (Bool-cases (trace_of t r row)) [
        | inl own ↦
            rw (select-insert (trace_of t r) db.run_traces row own)
              (Numbered-append 0 (events t r db) row (h t r) (seq_of own))
        | inr other ↦ rw (select-insert_other (trace_of t r) db.run_traces row other) (h t r)
      ]
    where
      seq_of :
          trace_of t r (new_event e a run_id event_type payload db) ≡ true
          → (new_event e a run_id event_type payload db).seq ≡ suc (0 + length (events t r db))
      seq_of own =
          let same_t : a ≡ t = ground arith in
          let same_r : run_id ≡ r = ground arith in
          rw (same_t, same_r) (omega (arith, max_of-Numbered 0 (events t r db) (h t r)))

pub append_event-Logs :
    (e : Engine) (a run_id : ℕ) (event_type : String) (payload : Value)
    → Moves Logs (append_event e a run_id event_type payload)
unfolding append_event added
append_event-Logs e a run_id event_type payload = record {
  at = λ db. admit_moves _ _ _ db Logs-IsPreorder (
    (new_event e a run_id event_type payload db ∷ [], refl),
    new_event-IsNumbered e a run_id event_type payload db,
  );
}

-- The other statements do not write the log.
pub create_tenant-Logs : (e : Engine) (name : String) → Moves Logs (create_tenant e name)
unfolding create_tenant
create_tenant-Logs e name = record {
  at = λ db. admit_moves _ _ _ db Logs-IsPreorder (([], sym (append-nil db.run_traces)), λ h. h);
}

module _ (e : Engine) (a : ℕ) where
  create_api_key-Logs : (p h : String) → Moves Logs (create_api_key e a p h)
  unfolding create_api_key
  create_api_key-Logs p h = record {
    at = λ db. admit_moves _ _ _ db Logs-IsPreorder (([], sym (append-nil db.run_traces)), λ h. h);
  }

  create_tool-Logs : (name : String) (s h : Value) → Moves Logs (create_tool e a name s h)
  unfolding create_tool
  create_tool-Logs name s h = record {
    at = λ db. admit_moves _ _ _ db Logs-IsPreorder (([], sym (append-nil db.run_traces)), λ h. h);
  }

  delete_tool-Logs : (tool_id : ℕ) → Moves Logs (delete_tool e a tool_id)
  unfolding delete_tool
  delete_tool-Logs tool_id = record { at = λ db. (([], sym (append-nil db.run_traces)), λ h. h) }

  insert_agent-Logs : (row : AgentRow) → row.tenant_id ≡ a → Moves Logs (insert_agent row)
  unfolding insert_agent
  insert_agent-Logs row own = record {
    at = λ db. admit_moves _ _ _ db Logs-IsPreorder (([], sym (append-nil db.run_traces)), λ h. h);
  }

  insert_binding-Logs : (row : AgentToolRow) → row.tenant_id ≡ a → Moves Logs (insert_binding row)
  unfolding insert_binding
  insert_binding-Logs row own = record {
    at = λ db. admit_moves _ _ _ db Logs-IsPreorder (([], sym (append-nil db.run_traces)), λ h. h);
  }

  insert_run-Logs : (row : RunRow) → row.tenant_id ≡ a → Moves Logs (insert_run row)
  unfolding insert_run
  insert_run-Logs row own = record {
    at = λ db. admit_moves _ _ _ db Logs-IsPreorder (([], sym (append-nil db.run_traces)), λ h. h);
  }

  mark_run_failed-Logs :
      (run_id : ℕ) (reason : String) → Moves Logs (mark_run_failed e a run_id reason)
  unfolding mark_run_failed
  mark_run_failed-Logs run_id reason = record {
    at = λ db. (([], sym (append-nil db.run_traces)), λ h. h);
  }

  begin_run_execution-Logs : (run_id : ℕ) → Moves Logs (begin_run_execution e a run_id)
  unfolding begin_run_execution
  begin_run_execution-Logs run_id = record {
    at = λ db. (([], sym (append-nil db.run_traces)), λ h. h);
  }

  finalize_run-Logs :
      (run_id : ℕ) (status : RunStatus) (answer reason : Option String)
      → Moves Logs (finalize_run e a run_id status answer reason)
  unfolding finalize_run
  finalize_run-Logs run_id status answer reason = record {
    at = λ db. (([], sym (append-nil db.run_traces)), λ h. h);
  }

  pub Logs-Writes : Writes Logs e a
  Logs-Writes = record {
    tables = record {
      api_key = create_api_key-Logs;
      tool = create_tool-Logs;
      tool_deletion = delete_tool-Logs;
      agent = insert_agent-Logs;
      binding = insert_binding-Logs;
      run = insert_run-Logs;
    };
    runs = λ run_id. record {
      failure = mark_run_failed-Logs run_id;
      start = begin_run_execution-Logs run_id;
      finish = λ status answer reason _. finalize_run-Logs run_id status answer reason;
      event = append_event-Logs e a run_id;
    };
  }
