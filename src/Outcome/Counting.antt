-- ===== src/Outcome/Counting.antt =====
-- How many calls of the model the agent loop logs, and the other parts of a run.
use multi_tenant_agent_platf.Prelude.{
  ℕ, zero, suc, ◌+◌, ◌≤◌, String, Bool, not, ◌&&◌, ◌||◌, Option, none, some, List, [], ◌∷◌, ◌++◌,
  arith, str_eq, if◌then◌else◌,
}
use multi_tenant_agent_platf.Json.{Value}
use multi_tenant_agent_platf.Core.{ChatMessage, RunStatus}
use multi_tenant_agent_platf.Error.{AppError, DbError}
use multi_tenant_agent_platf.Exec.{Result, ok, err, continue, pure, ◌>>=◌}
use multi_tenant_agent_platf.Exec.Moves.{
  Moves, IsPreorder, Moves-pure, Moves-raise, Moves-of_result, Moves-ok_or, Moves-if, Moves-bind,
  Moves-attempt,
}
use multi_tenant_agent_platf.Rows.{count}
use multi_tenant_agent_platf.Rows.Filtered.{count-append}
use multi_tenant_agent_platf.Db.{Engine, Db, Action, admit}
use multi_tenant_agent_platf.Db.Tools.{ToolRecord}
use multi_tenant_agent_platf.Db.Runs.{finalize_run}
use multi_tenant_agent_platf.Db.Traces.{append_event, new_event}
use multi_tenant_agent_platf.Runtime.{Services}
use multi_tenant_agent_platf.Runtime.Decision.{
  LlmDecisionKind, final_answer, tool_call, mock_llm_decision, forced_call, first_tool_call,
  authorize_found, authorize_tool_call,
}
use multi_tenant_agent_platf.Runtime.Loop.{
  fail_run, fail_with, succeed, run_tool, validated, authorized, act, round, go_on, agent_loop,
}
use multi_tenant_agent_platf.Frames.{reads}

-- The llm_call events of the log.
abbrev pub calls : Db → ℕ
calls db = count (λ x. str_eq x.event_type "llm_call") db.run_traces

abbrev NoMore : Db → Db → Type 0
NoMore before after = calls after ≤ calls before

o : IsPreorder NoMore
o = record { stay = λ s. omega arith; chain = λ s t u f g. omega (arith, f, g) }

ruleset rules = (
  reads, Moves-pure, Moves-raise, Moves-of_result, Moves-ok_or, Moves-if, Moves-bind, Moves-attempt,
)

module _ (e : Engine) (t r : ℕ) (payload : Value) where
  pub appended :
      (k : ℕ) (event_type : String) (db : Db) (refused : Option DbError)
      → (if str_eq event_type "llm_call" then 1 else 0) ≤ k
      → calls
          (admit refused
            (tt {0})
            (record db {
              run_traces = db.run_traces ++ new_event e t r event_type payload db ∷ [];
              ticks = db.ticks + 1;
            })
            db).1
        ≤ calls db + k
  unfolding admit count new_event
  appended k event_type db (some x) h = omega arith
  appended k event_type db none h = omega (
    arith,
    h,
    count-append (λ x. str_eq x.event_type "llm_call") db.run_traces
        (new_event e t r event_type payload db ∷ []),
  )

  call_logged : (db : Db) → calls (append_event e t r "llm_call" payload db).1 ≤ calls db + 1
  unfolding append_event
  call_logged db = appended 1 "llm_call" db _ (omega arith)

  tool_logged : Moves NoMore (append_event e t r "tool_exec" payload)
  unfolding append_event
  tool_logged = record { at = λ db. omega (arith, appended 0 "tool_exec" db _ (omega arith)) }

  end_logged : Moves NoMore (append_event e t r "run_end" payload)
  unfolding append_event
  end_logged = record { at = λ db. omega (arith, appended 0 "run_end" db _ (omega arith)) }

finalized :
    (e : Engine) (t r : ℕ) (status : RunStatus) (answer reason : Option String)
    → Moves NoMore (finalize_run e t r status answer reason)
unfolding finalize_run
finalized e t r status answer reason = record { at = λ db. omega arith }

fail_run-NoMore : (e : Engine) (t r : ℕ) (reason : String) → Moves NoMore (fail_run e t r reason)
unfolding fail_run
fail_run-NoMore e t r reason = search (o, rules, finalized, end_logged)

module _ (v : Services) (t r : ℕ) where
  fail_with-NoMore :
      {A : Type 0} (error : AppError) → Moves NoMore (fail_with {A = A} v.engine t r error)
  unfolding fail_with
  fail_with-NoMore error = search (o, rules, fail_run-NoMore)

  run_tool-NoMore :
      (tool : ToolRecord) (arguments : Value) → Moves NoMore (run_tool v t r tool arguments)
  unfolding run_tool
  run_tool-NoMore tool arguments = search (o, rules, tool_logged)

  validated-NoMore :
      (tool : ToolRecord) (arguments : Value) (c : Result AppError (Unit {0}))
      → Moves NoMore (validated v t r tool arguments c)
  unfolding validated
  validated-NoMore tool arguments (ok _) = run_tool-NoMore tool arguments
  validated-NoMore tool arguments (err error) = fail_with-NoMore error

  authorized-NoMore :
      (arguments : Value) (c : Result AppError ToolRecord)
      → Moves NoMore (authorized v t r arguments c)
  unfolding authorized
  authorized-NoMore arguments (ok tool) = validated-NoMore tool arguments _
  authorized-NoMore arguments (err error) = fail_with-NoMore error

  act-NoMore : (agent_id : ℕ) (kind : LlmDecisionKind) → Moves NoMore (act v t r agent_id kind)
  unfolding act succeed authorize_tool_call authorize_found
  act-NoMore agent_id (final_answer answer) = search (o, rules, finalized, end_logged)
  act-NoMore agent_id (tool_call tool_id arguments) = search (o, rules, authorized-NoMore) depth 16

  decision-NoMore :
      (agent_id : ℕ) (bound : List ToolRecord) (n : ℕ) (force : Bool)
      → Moves NoMore (mock_llm_decision v t agent_id bound n force)
  unfolding mock_llm_decision forced_call first_tool_call
  decision-NoMore agent_id bound n force = search (o, rules)

-- The action logs at most `k` calls, whether it returns or raises.
pub record AtMost {A : Type 0} (k : ℕ) (m : Action A) : Type 0 where
  pub at : (s : Db) → calls (m s).1 ≤ calls s + k

no_more : {A : Type 0} (m : Action A) → Moves NoMore m → AtMost 0 m
no_more m h = record { at = λ s. omega (arith, h.at s) }

after_continue :
    {A B : Type 0} (j k : ℕ) (f : A → Action B) (s u : Db) (c : Result AppError A)
    → ((a : A) → AtMost k (f a))
    → calls u ≤ calls s + j
    → calls (continue c f u).1 ≤ calls s + (j + k)
after_continue j k f s u (ok a) hf h = omega (arith, h, (hf a).at u)
after_continue j k f s u (err e) hf h = omega (arith, h)

widen : {A : Type 0} (j k : ℕ) (m : Action A) → j ≤ k → AtMost j m → AtMost k m
widen j k m h b = record { at = λ s. omega (arith, h, b.at s) }

-- The calls of two actions in turn.
bind-AtMost :
    {A B : Type 0} (j k : ℕ) (m : Action A) (f : A → Action B)
    → AtMost j m
    → ((a : A) → AtMost k (f a))
    → AtMost (j + k) (m >>= f)
unfolding ◌>>=◌
bind-AtMost j k m f hm hf = record { at = λ s. after_continue j k f s (m s).1 (m s).0 hf (hm.at s) }

round-AtMost :
    (v : Services) (t r agent_id : ℕ) (bound : List ToolRecord) (iteration n : ℕ) (force : Bool)
    → AtMost (0 + (1 + 0)) (round v t r agent_id bound iteration n force)
unfolding round
round-AtMost v t r agent_id bound iteration n force =
    bind-AtMost 0 (1 + 0) _ _ (no_more _ (decision-NoMore v t r agent_id bound n force)) λ decision.
      bind-AtMost 1 0 _ _ (record { at = call_logged v.engine t r _ })
        λ _. no_more _ (act-NoMore v t r agent_id decision.kind)

go_on-AtMost :
    (k : ℕ) (next : Option ChatMessage) (f : ChatMessage → Action (Unit {0}))
    → ((message : ChatMessage) → AtMost k (f message))
    → AtMost k (go_on next f)
unfolding go_on pure
go_on-AtMost k none f h = record { at = λ s. omega arith }
go_on-AtMost k (some message) f h = h message

pub loop-AtMost :
    (v : Services) (t r agent_id : ℕ) (bound : List ToolRecord) (force : Bool)
    (left iteration n : ℕ) (consumed : Bool) (messages : List ChatMessage)
    → AtMost left (agent_loop v t r agent_id bound force left iteration n consumed messages)
unfolding agent_loop
loop-AtMost v t r agent_id bound force zero iteration n consumed messages =
    no_more _ (fail_run-NoMore v.engine t r "max_iterations_exceeded")
loop-AtMost v t r agent_id bound force (suc left) iteration n consumed messages =
    widen (0 + (1 + 0) + left) (suc left) _ (omega arith) (
      bind-AtMost (0 + (1 + 0)) left _ _
        (round-AtMost v t r agent_id bound iteration n (force && not consumed))
        (λ next. go_on-AtMost left next _ λ message.
          loop-AtMost v t r agent_id bound force left (iteration + 1) (n + 1) (consumed || force)
            (messages ++ message ∷ [])))
