-- ===== src/Outcome/Completed.antt =====
-- A run that is executed without an error has ended.
use multi_tenant_agent_platf.Prelude.{
  ℕ, zero, suc, ◌+◌, ◌≡◌, ap, subst, arith, Bool, true, false, not, ◌&&◌, ◌||◌, Option, none, some,
  List, [], ◌∷◌, ◌++◌,
}
use multi_tenant_agent_platf.Core.{ChatMessage}
use multi_tenant_agent_platf.Error.{not_found, serde_json}
use multi_tenant_agent_platf.Rows.{exists, count}
use multi_tenant_agent_platf.Rows.Filtered.{exists-count}
use multi_tenant_agent_platf.Exec.{ok, pure, ok_or, ◌>>=◌}
use multi_tenant_agent_platf.Exec.Moves.{Moves-ok_or}
use multi_tenant_agent_platf.Exec.Inversion.{bind-inv, bind-kept}
use multi_tenant_agent_platf.Db.{Db, Action}
use multi_tenant_agent_platf.Db.Tools.{ToolRecord, list_agent_tools}
use multi_tenant_agent_platf.Db.Agents.{AgentRecord}
use multi_tenant_agent_platf.Db.Runs.{RunRecord, run_at, pending_run_at, begin_run_execution}
use multi_tenant_agent_platf.Runtime.{Services, message_requests_invalid_tool_call}
use multi_tenant_agent_platf.Runtime.Loop.{
  round, go_on, agent_loop, run_agent, run_if_started, execute_run, any_message, rounds,
}
use multi_tenant_agent_platf.Frames.{get_run-Moves, get_agent-Moves, list_agent_tools-Moves}
use multi_tenant_agent_platf.Frames.Runs.{mock_llm_decision-Moves, round-Moves}
use multi_tenant_agent_platf.Outcome.Closing.{
  HasEnded, Stored, stored_order, stored_writes, fail_run-HasEnded, act-HasEnded,
}

module _ (t r : ℕ) where
  module _ (v : Services) where
    round-HasEnded :
        (agent_id : ℕ) (bound : List ToolRecord) (iteration count : ℕ) (force : Bool) (db db' : Db)
        → Stored t r db.runs
        → round v t r agent_id bound iteration count force db ≡ (ok none, db')
        → HasEnded t r db'
    unfolding round
    round-HasEnded agent_id bound iteration count force db db' stored h =
        let (decision, u, stored_u, decided, h1) =
          bind-kept {P = λ s. Stored t r s.runs} _ _ db db' none
            (mock_llm_decision-Moves (stored_order t r) t v r (stored_writes t r v.engine) agent_id
              bound count force)
            stored h in
        let (x, w, stored_w, traced, last) =
          bind-kept {P = λ s. Stored t r s.runs} _ _ u db' none
            ((stored_writes t r v.engine).event _ _) stored_u h1 in
        act-HasEnded t r v agent_id decision.kind w db' stored_w last

    agent_loop-HasEnded :
        (agent_id : ℕ) (bound : List ToolRecord) (force : Bool) (left iteration count : ℕ)
        (consumed : Bool) (messages : List ChatMessage) (db db' : Db)
        → Stored t r db.runs
        → agent_loop v t r agent_id bound force left iteration count consumed messages db
          ≡ (ok tt, db')
        → HasEnded t r db'
    unfolding agent_loop go_on pure
    agent_loop-HasEnded agent_id bound force zero iteration count consumed messages db db' stored
          h =
        fail_run-HasEnded t r v.engine "max_iterations_exceeded" db db' stored h
    agent_loop-HasEnded agent_id bound force (suc left) iteration count consumed messages db db'
          stored h =
        let (next, u, stored_u, turn, last) =
          bind-kept {P = λ s. Stored t r s.runs} _ _ db db' tt
            (round-Moves (stored_order t r) t v r (stored_writes t r v.engine) agent_id bound
              iteration count (force && not consumed))
            stored h in
        go
          (λ later w stored_w rest.
            agent_loop-HasEnded agent_id bound force left (iteration + 1) (count + 1)
              (consumed || force) later w db' stored_w rest)
          next u stored_u turn last
      where
        further : List ChatMessage → Action (Unit {0})
        further later =
            agent_loop v t r agent_id bound force left (iteration + 1) (count + 1)
              (consumed || force) later

        go :
            ((later : List ChatMessage) (w : Db)
              → Stored t r w.runs
              → further later w ≡ (ok tt, db')
              → HasEnded t r db')
            → (next : Option ChatMessage) (u : Db) → Stored t r u.runs
            → round v t r agent_id bound iteration count (force && not consumed) db ≡ (ok next, u)
            → go_on next (λ message. further (messages ++ message ∷ [])) u ≡ (ok tt, db')
            → HasEnded t r db'
        go on none u stored_u turn last =
            subst (HasEnded t r) (ap (λ s. s.1) last) (
              round-HasEnded agent_id bound iteration count (force && not consumed) db u stored
                turn)
        go on (some message) u stored_u turn last = on (messages ++ message ∷ []) u stored_u last

    -- From the tools of the agent to the end.
    from_tools-HasEnded :
        (agent_id left : ℕ) (decoded : Option (List ChatMessage)) (db db' : Db)
        → Stored t r db.runs
        → (list_agent_tools v.engine t agent_id >>= λ bound.
              ok_or decoded serde_json >>= λ messages.
              agent_loop v t r agent_id bound
                (any_message message_requests_invalid_tool_call messages)
                left
                1
                0
                false
                messages)
            db
          ≡ (ok tt, db')
        → HasEnded t r db'
    from_tools-HasEnded agent_id left decoded db db' stored h =
        let (bound, u, s1, _, h1) =
          bind-kept {P = λ s. Stored t r s.runs} _ _ db db' tt
            (list_agent_tools-Moves (stored_order t r) v.engine t agent_id) stored h in
        let (messages, w, s2, _, h2) =
          bind-kept {P = λ s. Stored t r s.runs} _ _ u db' tt (Moves-ok_or (stored_order t r) _ _)
            s1 h1 in
        agent_loop-HasEnded agent_id bound (any_message message_requests_invalid_tool_call messages)
          left 1 0 false messages w db' s2 h2

    -- From the agent of the run to the end.
    from_agent-HasEnded :
        (run : RunRecord) (found : Option AgentRecord) (db db' : Db)
        → Stored t r db.runs
        → (ok_or found not_found >>= λ agent. list_agent_tools v.engine t agent.id >>= λ bound.
              ok_or (v.serde.from_value run.input_messages) serde_json >>= λ messages.
              agent_loop v t r agent.id bound
                (any_message message_requests_invalid_tool_call messages)
                (rounds agent.max_iterations)
                1
                0
                false
                messages)
            db
          ≡ (ok tt, db')
        → HasEnded t r db'
    from_agent-HasEnded run found db db' stored h =
        let (agent, u, s1, _, h1) =
          bind-kept {P = λ s. Stored t r s.runs} _ _ db db' tt
            (Moves-ok_or (stored_order t r) found not_found) stored h in
        from_tools-HasEnded agent.id (rounds agent.max_iterations)
          (v.serde.from_value run.input_messages) u db' s1 h1

    run_agent-HasEnded :
        (db db' : Db) → Stored t r db.runs → run_agent v t r db ≡ (ok tt, db') → HasEnded t r db'
    unfolding run_agent
    run_agent-HasEnded db db' stored h =
        let (found_run, u1, s1, _, h1) =
          bind-kept {P = λ s. Stored t r s.runs} _ _ db db' tt
            (get_run-Moves (stored_order t r) t r) stored h in
        let (run, u2, s2, _, h2) =
          bind-kept {P = λ s. Stored t r s.runs} _ _ u1 db' tt
            (Moves-ok_or (stored_order t r) found_run not_found) s1 h1 in
        let (found_agent, u3, s3, _, h3) =
          bind-kept {P = λ s. Stored t r s.runs} _ _ u2 db' tt
            (get_agent-Moves (stored_order t r) t run.agent_id) s2 h2 in
        from_agent-HasEnded run found_agent u3 db' s3 h3

    run_if_started-HasEnded :
        (db db' : Db)
        → Stored t r db.runs
        → run_if_started v t r true db ≡ (ok tt, db')
        → HasEnded t r db'
    unfolding run_if_started
    run_if_started-HasEnded db db' stored h =
        let (_, u1, s1, _, h1) =
          bind-kept {P = λ s. Stored t r s.runs} _ _ db db' tt
            ((stored_writes t r v.engine).event _ _) stored h in
        let (_, u2, s2, _, h2) =
          bind-kept {P = λ s. Stored t r s.runs} _ _ u1 db' tt
            ((stored_writes t r v.engine).event _ _) s1 h1 in
        run_agent-HasEnded u2 db' s2 h2

-- A task that returns without an error has ended its run: if it found exactly one pending run, its status is final
-- afterwards, and the newest event of the log is its run_end event, which tells the same status. So
-- whatever leaves a run unfinished, in whatever state of the tables, is an error of the task.
pub execute_run-HasEnded :
    (v : Services) (t r : ℕ) (db db' : Db)
    → count (pending_run_at t r) db.runs ≡ 1
    → execute_run v t r db ≡ (ok tt, db')
    → HasEnded t r db'
unfolding execute_run begin_run_execution
execute_run-HasEnded v t r db db' one h =
    let stored : exists (run_at t r) db.runs ≡ true =
      exists-count (pending_run_at t r) (run_at t r) db.runs (λ x e. ground (arith, e))
        (ground (arith, one)) in
    let (can_start, u, begun, last) = bind-inv _ _ db db' tt h in
    let starts : can_start ≡ true = ground (arith, one, begun) in
    let kept : exists (run_at t r) u.runs ≡ true =
      subst (λ s. exists (run_at t r) s.runs ≡ true) (ap (λ s. s.1) begun)
        ((stored_writes t r v.engine).start.at db stored) in
    run_if_started-HasEnded t r v u db' kept (rw starts at last)
