-- ===== src/Outcome/Run.antt =====
-- A run from its start to its end.
use multi_tenant_agent_platf.Prelude.{
  ℕ, ◌+◌, ◌≡◌, refl, Bool, true, false, some, List, [], ◌∷◌, arith, ◌∙◌, pos,
}
use multi_tenant_agent_platf.Json.{str, object1, is_object}
use multi_tenant_agent_platf.Core.{ChatMessage}
use multi_tenant_agent_platf.Exec.{Result, ok, ok_or, ◌>>=◌}
use multi_tenant_agent_platf.Rows.{select, first, update, count}
use multi_tenant_agent_platf.Rows.Filtered.{exists-update, select-update}
use multi_tenant_agent_platf.Db.{Db, RunRow, AgentRow}
use multi_tenant_agent_platf.Db.Tools.{ToolRecord, list_agent_tools}
use multi_tenant_agent_platf.Db.Agents.{active_agent_at, agent_from_row, get_agent}
use multi_tenant_agent_platf.Db.Runs.{
  run_at, pending_run_at, set_running, begin_run_execution, get_run, run_from_row,
}
use multi_tenant_agent_platf.Db.Traces.{type_allowed, last_seq}
use multi_tenant_agent_platf.Runtime.{Services, message_requests_invalid_tool_call}
use multi_tenant_agent_platf.Runtime.Loop.{
  agent_loop, any_message, run_agent, run_if_started, execute_run,
}
use multi_tenant_agent_platf.Outcome.{Ready, EndsAs}
use multi_tenant_agent_platf.Outcome.Loop.{status_after, agent_loop-EndsAs}
use multi_tenant_agent_platf.Outcome.Logging.{logged, append_event-logged, logged-Ready}
use multi_tenant_agent_platf.Outcome.Rounds.{Answers, Allowed}

first-update :
    {A : Type 0} (q : A → Bool) (f : A → A) (xs : List A) (x : A)
    → first xs ≡ some x
    → q x ≡ true
    → first (update q f xs) ≡ some (f x)
unfolding update
first-update q f [] x h holds = absurd (ground arith)
first-update q f (y ∷ xs) x h holds = let same : y ≡ x = ground (arith, h) in rw (same, holds) refl

zero_plus : (n : ℕ) → 0 + n ≡ n
zero_plus n = omega arith

ok_inj : {E A : Type 0} (x y : A) → ◌≡◌ {A = Result E A} (ok x) (ok y) → x ≡ y
ok_inj x y h = ground (arith, h)

module _ (v : Services) (t r : ℕ) (db : Db) where
  abbrev pub begun : Db
  begun = (begin_run_execution v.engine t r db).1

  begun-Ready : (k : ℕ) → Ready t r k db → Ready t r k begun
  unfolding begin_run_execution set_running last_seq
  begun-Ready k ready = record {
    stored = exists-update (run_at t r) _ _ db.runs (λ x. refl) ∙ ready.stored;
    room = ready.room;
  }

  pub begun-found :
      (run : RunRow)
      → first (select (run_at t r) db.runs) ≡ some run
      → pending_run_at t r run ≡ true
      → first (select (run_at t r) begun.runs) ≡ some (set_running (v.engine.now db.ticks) run)
  unfolding begin_run_execution set_running
  begun-found run found is_pending =
      rw
        (select-update (run_at t r) (pending_run_at t r) (set_running (v.engine.now db.ticks))
          db.runs (λ x. refl))
        (first-update (pending_run_at t r) (set_running (v.engine.now db.ticks)) _ run found
          is_pending)

  abbrev accepted : Db
  accepted = logged v.engine t r "scheduler_decision" (object1 "decision" (str "accepted")) begun

  abbrev pub announced : Db
  announced = logged v.engine t r "run_started" (object1 "status" (str "running")) accepted

  -- The loop is entered with what is stored for the run.
  run_agent-loop :
      (n : ℕ) (run : RunRow) (agent : AgentRow) (messages : List ChatMessage)
      (bound_tools : List ToolRecord)
      → first (select (run_at t r) announced.runs) ≡ some (set_running (v.engine.now db.ticks) run)
      → first (select (active_agent_at t run.agent_id) db.agents) ≡ some agent
      → agent.max_iterations ≡ pos n
      → v.serde.from_value run.input_messages ≡ some messages
      → (list_agent_tools v.engine t agent.id db).0 ≡ ok bound_tools
      → run_agent v t r announced
        ≡ agent_loop v t r agent.id bound_tools
            (any_message message_requests_invalid_tool_call messages)
            n
            1
            0
            false
            messages
            announced
  unfolding run_agent get_run get_agent list_agent_tools ok_or ◌>>=◌ run_from_row agent_from_row
      set_running select begin_run_execution
  run_agent-loop n run agent messages bound_tools stored active rounds_of decoded listed =
      rw (stored, active, rounds_of, decoded, ok_inj _ bound_tools listed) refl

-- A run that has been loaded: exactly one run has the tenant and the id and is pending, its agent is
-- active and allows `n` rounds, its messages decode, and the run's events can be numbered with an
-- INTEGER.
pub record Loaded (v : Services) (t r n : ℕ) (run : RunRow) (agent : AgentRow)
    (messages : List ChatMessage) (bound_tools : List ToolRecord) (db : Db) : Type 0 where
  pub one : count (pending_run_at t r) db.runs ≡ 1
  pub found : first (select (run_at t r) db.runs) ≡ some run
  pub is_pending : pending_run_at t r run ≡ true
  pub active : first (select (active_agent_at t run.agent_id) db.agents) ≡ some agent
  pub rounds_of : agent.max_iterations ≡ pos n
  pub decoded : v.serde.from_value run.input_messages ≡ some messages
  pub listed : (list_agent_tools v.engine t agent.id db).0 ≡ ok bound_tools
  pub ready : Ready t r (n + n + 3) db

module _ (v : Services) (t r n : ℕ) (run : RunRow) (agent : AgentRow) (messages : List ChatMessage)
    (bound_tools : List ToolRecord) (db : Db)
    (loaded : Loaded v t r n run agent messages bound_tools db) where
  room : Ready t r (n + n + 1 + 1 + 1) (begun v t r db)
  room =
      begun-Ready v t r db (n + n + 1 + 1 + 1)
        (record { stored = loaded.ready.stored; room = omega (arith, loaded.ready.room) })

  accepted-Ready : Ready t r (n + n + 1 + 1) (accepted v t r db)
  unfolding type_allowed is_object
  accepted-Ready =
      logged-Ready v.engine t r "scheduler_decision" (object1 "decision" (str "accepted")) _ _ room
        refl refl

  pub announced-Ready : Ready t r (n + n + 1) (announced v t r db)
  unfolding type_allowed is_object
  announced-Ready =
      logged-Ready v.engine t r "run_started" (object1 "status" (str "running")) _ _ accepted-Ready
        refl refl

  -- Executing a loaded run logs that it was accepted and started, and runs the loop.
  pub execute_run-loop :
      execute_run v t r db
      ≡ agent_loop v t r agent.id bound_tools
          (any_message message_requests_invalid_tool_call messages)
          n
          1
          0
          false
          messages
          (announced v t r db)
  unfolding execute_run run_if_started begin_run_execution ◌>>=◌ type_allowed is_object
  execute_run-loop =
      rw
        (
          loaded.one,
          append_event-logged v.engine t r "scheduler_decision"
              (object1 "decision" (str "accepted")) _ _ room refl refl,
          append_event-logged v.engine t r "run_started" (object1 "status" (str "running")) _ _
              accepted-Ready refl refl,
        )
        (run_agent-loop v t r db n run agent messages bound_tools
          (begun-found v t r db run loaded.found loaded.is_pending) loaded.active loaded.rounds_of
          loaded.decoded loaded.listed)

-- Executing a loaded run (exactly one run has the tenant and the id and is pending, its agent is active
-- and allows n rounds, its messages decode and its events can be numbered) returns without an error.
-- The run succeeds if n is three or more, and fails otherwise; its status is the one that the newest
-- event of the log, its run_end, tells. It is taken that the first of the agent's tools belongs to the
-- tenant, is bound and not deleted, accepts the mock model's arguments and has a static handler with a
-- response that can be printed, and that no message forces an invalid call.
pub execute_run-EndsAs :
    (v : Services) (t r n : ℕ) (run : RunRow) (agent : AgentRow) (messages : List ChatMessage)
    (tool : ToolRecord) (bound_tools : List ToolRecord) (db : Db)
    → Loaded v t r n run agent messages bound_tools db
    → any_message message_requests_invalid_tool_call messages ≡ false
    → first bound_tools ≡ some tool
    → Allowed v t agent.id tool db
    → Answers v tool
    → ((execute_run v t r db).0 ≡ ok tt) × EndsAs t r (status_after n) (execute_run v t r db).1
unfolding begin_run_execution
execute_run-EndsAs v t r n run agent messages tool bound_tools db loaded unforced picked allowed
      answers =
    rw (execute_run-loop v t r n run agent messages bound_tools db loaded, unforced)
      (rw (zero_plus n) at (
        agent_loop-EndsAs v t r agent.id bound_tools tool picked answers n 1 0 false messages
          (announced v t r db) (omega arith)
          (announced-Ready v t r n run agent messages bound_tools db loaded) allowed))
