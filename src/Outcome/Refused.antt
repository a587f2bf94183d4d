-- ===== src/Outcome/Refused.antt =====
-- The forced invalid tool call is always refused, and ends the run.
use mathlib.Core.Option
use multi_tenant_agent_platf.Prelude.{
  ℕ, suc, ◌≡◌, refl, String, Bool, true, false, not, ◌&&◌, Option, none, some, List, [], ◌∷◌, arith,
  ◌==◌, ◌∙◌, map, is_none, Option-cases, inl, inr,
}
use multi_tenant_agent_platf.Json.{is_object}
use multi_tenant_agent_platf.Core.{ChatMessage, failed}
use multi_tenant_agent_platf.Error.{bad_request}
use multi_tenant_agent_platf.Exec.{err, pure, raise, attempt, ◌>>=◌}
use multi_tenant_agent_platf.Rows.{select, first, exists}
use multi_tenant_agent_platf.Rows.Filtered.{exists-select, exists-ext}
use multi_tenant_agent_platf.Rows.Ordered.{exists-Perm, first-Perm}
use multi_tenant_agent_platf.Db.{Engine, Db, ToolRow, RunRow, AgentRow}
use multi_tenant_agent_platf.Db.Tools.{
  ToolRecord, tool_from_row, tool_at, binding_of, find_unbound_active_tool,
}
use multi_tenant_agent_platf.Db.Runs.{begin_run_execution}
use multi_tenant_agent_platf.Db.Traces.{type_allowed}
use multi_tenant_agent_platf.Runtime.{
  Services, normalize_error_reason, message_requests_invalid_tool_call,
}
use multi_tenant_agent_platf.Runtime.Decision.{
  nil_uuid, forced_target, forced_decision, forced_call, mock_llm_decision, contains,
}
use multi_tenant_agent_platf.Runtime.Loop.{
  round, agent_loop, act, authorized, fail_with, llm_call_payload, any_message, execute_run,
}
use multi_tenant_agent_platf.Runtime.Authorization.{verdict, bound_ids, authorize_tool_call-verdict}
use multi_tenant_agent_platf.Outcome.{Ready, EndsAs}
use multi_tenant_agent_platf.Outcome.Logging.{logged, append_event-logged, logged-Ready}
use multi_tenant_agent_platf.Outcome.Ending.{fail_run-EndsAs}
use multi_tenant_agent_platf.Outcome.Run.{Loaded, announced, announced-Ready, execute_run-loop}

contains-map :
    {A : Type 0} (f : A → ℕ) (xs : List A) (id : ℕ)
    → exists (λ b. f b == id) xs ≡ false
    → contains (map f xs) id ≡ false
unfolding exists
contains-map f [] id h = refl
contains-map f (x ∷ xs) id h = ground (arith, contains-map f xs id)

-- A tool without a binding to the agent is not among the ids that the agent is allowed.
not_bound :
    (e : Engine) (t agent_id tool_id : ℕ) (db : Db)
    → exists (λ b. binding_of t agent_id b && b.tool_id == tool_id) db.agent_tools ≡ false
    → contains (bound_ids e t agent_id db) tool_id ≡ false
not_bound e t agent_id tool_id db h =
    contains-map (λ b. b.tool_id) _ tool_id
      (exists-Perm (λ b. b.tool_id == tool_id) (e.order_by-perm (λ b. b.created_at) _)
        (rw (exists-select (binding_of t agent_id) (λ b. b.tool_id == tool_id) db.agent_tools) at
          h))

-- What is not bound is refused.
verdict-unbound :
    (found : Option ToolRow) → (reason : String) × (verdict found false ≡ err (bad_request reason))
verdict-unbound none = ("tool_not_allowed_for_agent", refl)
verdict-unbound (some row) = elim (Option-cases row.deleted_at) [
  | inl e ↦ ("tool_not_allowed_for_agent", rw e refl)
  | inr (d, e) ↦ ("tool_deleted", rw e refl)
]

-- The condition of the query for a tool that the agent lacks.
abbrev lacking : ℕ → ℕ → Db → ToolRow → Bool
lacking t agent_id db u =
    u.tenant_id == t
    && (is_none u.deleted_at
        && not (
            exists
              (λ b. b.tenant_id == u.tenant_id && (b.agent_id == agent_id && b.tool_id == u.id))
              db.agent_tools))

lacking-unbound :
    (t agent_id : ℕ) (db : Db) (u : ToolRow)
    → lacking t agent_id db u ≡ true
    → exists (λ b. binding_of t agent_id b && b.tool_id == u.id) db.agent_tools ≡ false
lacking-unbound t agent_id db u h =
    let same : u.tenant_id ≡ t = ground arith in
    let free : exists
          (λ b. b.tenant_id == u.tenant_id && (b.agent_id == agent_id && b.tool_id == u.id))
          db.agent_tools
        ≡ false =
      ground arith in
    exists-ext _ (λ b. b.tenant_id == u.tenant_id && (b.agent_id == agent_id && b.tool_id == u.id))
      db.agent_tools (λ b. ground (arith, same))
    ∙ free

-- The tool that a forced call names is refused, whether one is found or not.
forced_target-refused :
    (e : Engine) (t agent_id : ℕ) (db : Db) (o : Option ToolRow)
    → first (select (tool_at t nil_uuid) db.tools) ≡ none
    → first (e.order_by (λ u. u.created_at) (select (lacking t agent_id db) db.tools)) ≡ o
    → let id = forced_target (Option.map tool_from_row o) in
      (reason : String) × (verdict
          (first (select (tool_at t id) db.tools))
          (contains (bound_ids e t agent_id db) id)
        ≡ err (bad_request reason))
unfolding tool_from_row
forced_target-refused e t agent_id db none no_nil q = ("tool_not_allowed_for_agent", rw no_nil refl)
forced_target-refused e t agent_id db (some u) no_nil q =
    let lacks =
      first-Perm (lacking t agent_id db) db.tools _ u (e.order_by-perm (λ u. u.created_at) _) q in
    rw (not_bound e t agent_id u.id db (lacking-unbound t agent_id db u lacks))
      (verdict-unbound (first (select (tool_at t u.id) db.tools)))

-- The tool that a forced call looks for, and the id that it names.
abbrev sought : Engine → ℕ → ℕ → Db → Option ToolRow
sought e t agent_id db =
    first (e.order_by (λ u. u.created_at) (select (lacking t agent_id db) db.tools))

abbrev target : Engine → ℕ → ℕ → Db → ℕ
target e t agent_id db = forced_target (Option.map tool_from_row (sought e t agent_id db))

module _ (v : Services) (t r agent_id iteration count : ℕ) (bound_tools : List ToolRecord)
    (db : Db) where
  -- A round with a forced call logs the decision and fails the run.
  round-forced :
      (reason : String)
      → Ready t r 2 db
      → verdict
          (first (select (tool_at t (target v.engine t agent_id db)) db.tools))
          (contains (bound_ids v.engine t agent_id db) (target v.engine t agent_id db))
        ≡ err (bad_request reason)
      → ((round v t r agent_id bound_tools iteration count true db).0 ≡ err (bad_request reason))
        × EndsAs t r failed (round v t r agent_id bound_tools iteration count true db).1
  unfolding round mock_llm_decision forced_call forced_decision find_unbound_active_tool act
      authorized fail_with normalize_error_reason llm_call_payload type_allowed is_object attempt
      pure raise ◌>>=◌
  round-forced reason ready refused =
      let payload =
        llm_call_payload iteration (forced_decision v (target v.engine t agent_id db)) in
      let called = logged v.engine t r "llm_call" payload db in
      let (done, ends) =
        fail_run-EndsAs v.engine t r reason called
          (logged-Ready v.engine t r "llm_call" payload 1 db ready refl refl) in
      rw
        (
          append_event-logged v.engine t r "llm_call" payload 1 db ready refl refl,
          authorize_tool_call-verdict v.engine t agent_id (target v.engine t agent_id db) called,
          refused,
          done,
        )
        (refl, ends)

-- Executing a loaded run (exactly one run has the tenant and the id and is pending, its agent is active
-- and allows at least one round, its messages decode and its events can be numbered) in which a user's
-- message asks for an invalid tool call: the code returns the error of the refused call, a bad request,
-- and the run's status and the newest event of the log, its run_end, say "failed". The agent may have
-- any tools; it is taken that no tool of the tenant has the nil UUID.
pub execute_run-refused :
    (v : Services) (t r n : ℕ) (run : RunRow) (agent : AgentRow) (messages : List ChatMessage)
    (bound_tools : List ToolRecord) (db : Db)
    → Loaded v t r (suc n) run agent messages bound_tools db
    → any_message message_requests_invalid_tool_call messages ≡ true
    → first (select (tool_at t nil_uuid) db.tools) ≡ none
    → (reason : String) × ((execute_run v t r db).0 ≡ err (bad_request reason))
      × EndsAs t r failed (execute_run v t r db).1
unfolding agent_loop ◌>>=◌ begin_run_execution tool_from_row
execute_run-refused v t r n run agent messages bound_tools db loaded forced no_nil =
    let at_loop = announced v t r db in
    let ready = announced-Ready v t r (suc n) run agent messages bound_tools db loaded in
    let room : Ready t r 2 at_loop = record {
      stored = ready.stored;
      room = omega (arith, ready.room);
    } in
    let (reason, refused) =
      forced_target-refused v.engine t agent.id db (sought v.engine t agent.id db) no_nil refl in
    let (stops, ends) = round-forced v t r agent.id 1 0 bound_tools at_loop reason room refused in
    let opens = execute_run-loop v t r (suc n) run agent messages bound_tools db loaded in
    (reason, rw (opens, forced, stops) refl, rw (opens, forced, stops) ends)
