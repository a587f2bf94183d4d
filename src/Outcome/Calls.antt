-- ===== src/Outcome/Calls.antt =====
-- The number of calls of the model in a run.
use multi_tenant_agent_platf.Prelude.{
  ℕ, ◌≡◌, refl, pos, ◌+◌, ◌≤◌, String, Bool, true, false, Option, none, some, List, [], ◌∷◌, ◌++◌,
  arith, str_eq,
}
use multi_tenant_agent_platf.Json.{Value}
use multi_tenant_agent_platf.Core.{ChatMessage}
use multi_tenant_agent_platf.Error.{AppError, DbError}
use multi_tenant_agent_platf.Exec.{Result, ok, err, continue, pure, ok_or, ◌>>=◌}
use multi_tenant_agent_platf.Rows.{select, first}
use multi_tenant_agent_platf.Rows.Filtered.{select-update, first-update_kept}
use multi_tenant_agent_platf.Db.{Db, RunRow, AgentRow, Action, admit}
use multi_tenant_agent_platf.Db.Tools.{list_agent_tools}
use multi_tenant_agent_platf.Db.Agents.{active_agent_at, get_agent, agent_from_row}
use multi_tenant_agent_platf.Db.Runs.{
  run_at, pending_run_at, set_running, get_run, run_from_row, begin_run_execution,
}
use multi_tenant_agent_platf.Db.Traces.{append_event, new_event, trace_violation}
use multi_tenant_agent_platf.Runtime.{Services}
use multi_tenant_agent_platf.Runtime.Loop.{run_agent, run_if_started, execute_run}
use multi_tenant_agent_platf.Outcome.Counting.{calls, appended, loop-AtMost}

-- An action that logs no call, and then one that logs at most `k`.
then_calls :
    {A B : Type 0} (k : ℕ) (m : Action A) (f : A → Action B) (s : Db)
    → calls (m s).1 ≤ calls s
    → ((a : A) → calls (f a (m s).1).1 ≤ calls (m s).1 + k)
    → calls ((m >>= f) s).1 ≤ calls s + k
unfolding ◌>>=◌
then_calls {A} k m f s none_first rest = go (m s).0
  where
    go : (c : Result AppError A) → calls (continue c f (m s).1).1 ≤ calls s + k
    go (ok a) = omega (arith, none_first, rest a)
    go (err e) = omega (arith, none_first)

-- What is stored of the run and of its agent, as far as its rounds go.
abbrev pub Allows : ℕ → ℕ → ℕ → Db → Type 0
Allows t r n db =
    (run : RunRow) × (first (select (run_at t r) db.runs) ≡ some run)
    × (agent : AgentRow) × (first (select (active_agent_at t run.agent_id) db.agents) ≡ some agent)
    × (agent.max_iterations ≡ pos n)

module _ (v : Services) (t r n : ℕ) where
  begun-calls : (db : Db) → calls (begin_run_execution v.engine t r db).1 ≤ calls db
  unfolding begin_run_execution
  begun-calls db = omega arith

  -- The loop is entered with the rounds of the agent, or not at all.
  run_agent-calls : (db : Db) → Allows t r n db → calls (run_agent v t r db).1 ≤ calls db + n
  unfolding run_agent get_run get_agent list_agent_tools ok_or ◌>>=◌ run_from_row agent_from_row
  run_agent-calls db (run, stored, agent, active, bound_by) =
      go (v.serde.from_value run.input_messages) refl
    where
      go :
          (o : Option (List ChatMessage))
          → v.serde.from_value run.input_messages ≡ o
          → calls (run_agent v t r db).1 ≤ calls db + n
      go none e = rw (stored, active, e) (omega arith)
      go (some messages) e =
          rw (stored, active, e, bound_by)
            ((loop-AtMost v t r agent.id _ _ n 1 0 false messages).at db)

  begun-Allows : (db : Db) → Allows t r n db → Allows t r n (begin_run_execution v.engine t r db).1
  unfolding begin_run_execution set_running
  begun-Allows db (run, stored, agent, active, bound_by) =
      let (row, found, same) =
        first-update_kept (pending_run_at t r) (set_running (v.engine.now db.ticks))
          (λ x. x.agent_id) (select (run_at t r) db.runs) run stored (λ x. refl) in
      (
        row,
        rw
            (select-update (run_at t r) (pending_run_at t r) (set_running (v.engine.now db.ticks))
              db.runs (λ x. refl))
            found,
        agent,
        rw same active,
        bound_by,
      )

  -- An event that is no call leaves the run and the agent as they are.
  event-Allows :
      (event_type : String) (payload : Value) (db : Db)
      → Allows t r n db
      → Allows t r n (append_event v.engine t r event_type payload db).1
  unfolding append_event admit
  event-Allows event_type payload db h =
      go (trace_violation (new_event v.engine t r event_type payload db) db)
    where
      go :
          (refused : Option DbError)
          → Allows t r n
              (admit refused
                (tt {0})
                (record db {
                  run_traces = db.run_traces ++ new_event v.engine t r event_type payload db ∷ [];
                  ticks = db.ticks + 1;
                })
                db).1
      go none = h
      go (some x) = h

  event-calls :
      (event_type : String) (payload : Value) (db : Db)
      → str_eq event_type "llm_call" ≡ false
      → calls (append_event v.engine t r event_type payload db).1 ≤ calls db
  unfolding append_event
  event-calls event_type payload db other =
      omega (arith, appended v.engine t r payload 0 event_type db _ (rw other (omega arith)))

  run_if_started-calls :
      (can_start : Bool) (db : Db)
      → Allows t r n db
      → calls (run_if_started v t r can_start db).1 ≤ calls db + n
  unfolding run_if_started pure
  run_if_started-calls false db h = omega arith
  run_if_started-calls true db h =
      then_calls n _ _ db (event-calls "scheduler_decision" _ db refl) λ _.
        then_calls n _ _ _ (event-calls "run_started" _ _ refl) λ _.
          run_agent-calls _
            (event-Allows "run_started" _ _ (event-Allows "scheduler_decision" _ db h))

  -- If the run is stored, and its agent is active and has max_iterations n, the execution of the run logs
  -- at most n llm_call events, however it ends: with an answer, a failure or an error, whatever the tools
  -- and the messages are.
  pub execute_run-calls :
      (db : Db) → Allows t r n db → calls (execute_run v t r db).1 ≤ calls db + n
  unfolding execute_run
  execute_run-calls db h =
      then_calls n _ _ db (begun-calls db)
        λ can_start. run_if_started-calls can_start _ (begun-Allows db h)
