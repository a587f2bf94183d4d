-- ===== src/Outcome/Closing.antt =====
-- The two ways to end a run, and what a round without a further message has done.
use multi_tenant_agent_platf.Prelude.{
  ℕ, ◌≡◌, refl, ap, subst, ◌∙◌, arith, String, true, Option, none, some, List,
}
use multi_tenant_agent_platf.Json.{Value, str, get, get_field}
use multi_tenant_agent_platf.Core.{RunStatus, success, failed, as_str}
use multi_tenant_agent_platf.Error.{AppError, DbError}
use multi_tenant_agent_platf.Rows.{exists}
use multi_tenant_agent_platf.Rows.Filtered.{exists-update}
use multi_tenant_agent_platf.Exec.{Result, ok, err, pure, raise, ◌>>◌}
use multi_tenant_agent_platf.Exec.Moves.{IsPreorder, keeping-IsPreorder}
use multi_tenant_agent_platf.Exec.Inversion.{bind-inv}
use multi_tenant_agent_platf.Db.{Engine, Db, RunRow, admit, lift_db}
use multi_tenant_agent_platf.Db.Tools.{ToolRecord}
use multi_tenant_agent_platf.Db.Runs.{run_at, set_failed, set_running, set_finished, finalize_run}
use multi_tenant_agent_platf.Db.Traces.{append_event, new_event, trace_violation}
use multi_tenant_agent_platf.Runtime.{Services}
use multi_tenant_agent_platf.Runtime.Decision.{LlmDecisionKind, final_answer, tool_call}
use multi_tenant_agent_platf.Runtime.Loop.{
  fail_run, fail_with, succeed, run_tool, validated, authorized, act,
}
use multi_tenant_agent_platf.Frames.{IsFinal, RunWrites}
use multi_tenant_agent_platf.Frames.Tables.{RunUpdates, OnRuns, OnRuns-IsPreorder, OnRuns-RunWrites}
use multi_tenant_agent_platf.Outcome.{EndsAs}
use multi_tenant_agent_platf.Outcome.Ending.{closed-EndsAs}
use multi_tenant_agent_platf.Outcome.Logging.{logged}

-- The run has ended, in one way or the other.
abbrev pub HasEnded : ℕ → ℕ → Db → Type 0
HasEnded t r db = (status : RunStatus) × IsFinal status × EndsAs t r status db

-- An event that is not refused is logged.
append_event-ok :
    (e : Engine) (t r : ℕ) (event_type : String) (payload : Value) (db db' : Db)
    → append_event e t r event_type payload db ≡ (ok tt, db')
    → logged e t r event_type payload db ≡ db'
unfolding append_event admit lift_db
append_event-ok e t r event_type payload db db' h =
    go (trace_violation (new_event e t r event_type payload db) db) h
  where
    go :
        (v : Option DbError)
        → (let (x, s) = admit v tt (logged e t r event_type payload db) db in
            ◌≡◌ {A = Result AppError (Unit {0}) × Db} (lift_db x, s) (ok tt, db'))
        → logged e t r event_type payload db ≡ db'
    go none h = ap (λ x. x.1) h
    go (some error) h = absurd (ground (arith, h))

module _ (t r : ℕ) where
  abbrev pub Stored : List RunRow → Type 0
  Stored rows = exists (run_at t r) rows ≡ true

  abbrev pub KeepsStored : List RunRow → List RunRow → Type 0
  KeepsStored xs ys = Stored xs → Stored ys

  KeepsStored-RunUpdates : RunUpdates KeepsStored t r
  unfolding set_failed set_running set_finished
  KeepsStored-RunUpdates = record {
    failed = λ reason now rows h. exists-update (run_at t r) _ _ rows (λ x. refl) ∙ h;
    started = λ now rows h. exists-update (run_at t r) _ _ rows (λ x. refl) ∙ h;
    finished = λ status answer reason now rows final h.
        exists-update (run_at t r) _ _ rows (λ x. refl) ∙ h;
  }

  pub stored_order : IsPreorder (OnRuns KeepsStored)
  stored_order = OnRuns-IsPreorder (keeping-IsPreorder Stored)

  pub stored_writes : (e : Engine) → RunWrites (OnRuns KeepsStored) e t r
  stored_writes e = OnRuns-RunWrites (keeping-IsPreorder Stored) e t r KeepsStored-RunUpdates

  -- The status is written, and then the event that tells it.
  closed-ok :
      (e : Engine) (status : RunStatus) (answer reason : Option String) (payload : Value)
      (db db' : Db)
      → Stored db.runs
      → get "status" payload ≡ some (str (as_str status))
      → (finalize_run e t r status answer reason >> append_event e t r "run_end" payload) db
        ≡ (ok tt, db')
      → EndsAs t r status db'
  closed-ok e status answer reason payload db db' stored tells h =
      let (x, u, finalized, last) = bind-inv _ _ db db' tt h in
      let same : (finalize_run e t r status answer reason db).1 ≡ u = ap (λ s. s.1) finalized in
      subst (EndsAs t r status)
        (ap (logged e t r "run_end" payload) same
          ∙ append_event-ok e t r "run_end" payload u db' last)
        (closed-EndsAs e t r status answer reason payload db stored tells)

  succeed-HasEnded :
      (e : Engine) (answer : String) (db db' : Db)
      → Stored db.runs
      → succeed e t r answer db ≡ (ok tt, db')
      → HasEnded t r db'
  unfolding succeed get get_field as_str
  succeed-HasEnded e answer db db' stored h =
      (success, tt, closed-ok e success (some answer) none _ db db' stored refl h)

  pub fail_run-HasEnded :
      (e : Engine) (reason : String) (db db' : Db)
      → Stored db.runs
      → fail_run e t r reason db ≡ (ok tt, db')
      → HasEnded t r db'
  unfolding fail_run get get_field as_str
  fail_run-HasEnded e reason db db' stored h =
      (failed, tt, closed-ok e failed none (some reason) _ db db' stored refl h)

  -- The arms that return the error give no message and no end.
  fail_with_refuses :
      {A : Type 0} (e : Engine) (error : AppError) (db db' : Db) (a : A)
      → fail_with e t r error db ≡ (ok a, db')
      → ⊥
  unfolding fail_with raise
  fail_with_refuses e error db db' a h =
      let (x, u, first, last) = bind-inv _ _ db db' a h in absurd (ground (arith, last))

  module _ (v : Services) where
    -- A tool that is run gives a message.
    run_tool-none :
        (tool : ToolRecord) (arguments : Value) (db db' : Db)
        → run_tool v t r tool arguments db ≡ (ok none, db')
        → ⊥
    unfolding run_tool pure
    run_tool-none tool arguments db db' h =
        let (result, u, handled, h1) = bind-inv _ _ db db' none h in
        let (x, u2, traced, h2) = bind-inv _ _ u db' none h1 in
        let (content, u3, printed, last) = bind-inv _ _ u2 db' none h2 in
        absurd (ground (arith, last))

    validated-none :
        (tool : ToolRecord) (arguments : Value) (q : Result AppError (Unit {0})) (db db' : Db)
        → validated v t r tool arguments q db ≡ (ok none, db')
        → ⊥
    unfolding validated
    validated-none tool arguments (ok _) db db' h = run_tool-none tool arguments db db' h
    validated-none tool arguments (err error) db db' h =
        fail_with_refuses v.engine error db db' none h

    authorized-none :
        (arguments : Value) (q : Result AppError ToolRecord) (db db' : Db)
        → authorized v t r arguments q db ≡ (ok none, db')
        → ⊥
    unfolding authorized
    authorized-none arguments (ok tool) db db' h = validated-none tool arguments _ db db' h
    authorized-none arguments (err error) db db' h = fail_with_refuses v.engine error db db' none h

    pub act-HasEnded :
        (agent_id : ℕ) (kind : LlmDecisionKind) (db db' : Db)
        → Stored db.runs
        → act v t r agent_id kind db ≡ (ok none, db')
        → HasEnded t r db'
    unfolding act pure
    act-HasEnded agent_id (final_answer answer) db db' stored h =
        let (x, u, done, last) = bind-inv _ _ db db' none h in
        subst (HasEnded t r) (ap (λ s. s.1) last)
          (succeed-HasEnded v.engine answer db u stored done)
    act-HasEnded agent_id (tool_call tool_id arguments) db db' stored h =
        let (q, u, asked, last) = bind-inv _ _ db db' none h in
        absurd (authorized-none arguments q u db' last)
