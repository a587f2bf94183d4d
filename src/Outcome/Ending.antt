-- ===== src/Outcome/Ending.antt =====
-- The two ways to end a run write its final status and a run_end event that agrees with it.
use multi_tenant_agent_platf.Prelude.{
  ℕ, ◌≡◌, refl, String, true, Option, none, some, List, [], ◌∷◌, ◌∙◌, arith, ==_refl, map,
}
use multi_tenant_agent_platf.Json.{Value, str, object2, get, get_field, is_object}
use multi_tenant_agent_platf.Core.{RunStatus, success, failed, as_str}
use multi_tenant_agent_platf.Exec.{ok, ◌>>=◌}
use multi_tenant_agent_platf.Rows.{exists, select, first}
use multi_tenant_agent_platf.Rows.Filtered.{exists-update, select-update_self, first-exists}
use multi_tenant_agent_platf.Db.{Engine, Db}
use multi_tenant_agent_platf.Db.Runs.{run_at, set_finished, finalize_run}
use multi_tenant_agent_platf.Db.Traces.{append_event, new_event, type_allowed, last_seq}
use multi_tenant_agent_platf.Runtime.Loop.{fail_run, succeed}
use multi_tenant_agent_platf.Outcome.{Ready, EndsAs}
use multi_tenant_agent_platf.Outcome.Logging.{logged, append_event-logged}

pub first-map :
    {A : Type 0} (f : A → A) (xs : List A) (x : A)
    → first xs ≡ some x
    → first (map f xs) ≡ some (f x)
first-map f [] x h = absurd (ground arith)
first-map f (y ∷ xs) x h = let same : y ≡ x = ground (arith, h) in rw same refl

module _ (e : Engine) (t r : ℕ) (status : RunStatus) (answer reason : Option String)
    (event_payload : Value) (db : Db) where
  abbrev closed : Db
  closed = (finalize_run e t r status answer reason db).1

  closed-Ready : (n : ℕ) → Ready t r n db → Ready t r n closed
  unfolding finalize_run set_finished last_seq
  closed-Ready n ready = record {
    stored = exists-update (run_at t r) _ _ db.runs (λ x. refl) ∙ ready.stored;
    room = ready.room;
  }

  -- The run's row and the newest event tell the status, once the event is logged.
  pub closed-EndsAs :
      exists (run_at t r) db.runs ≡ true
      → get "status" event_payload ≡ some (str (as_str status))
      → EndsAs t r status (logged e t r "run_end" event_payload closed)
  unfolding finalize_run set_finished new_event
  closed-EndsAs stored tells =
      let (row, found) = first-exists (run_at t r) db.runs stored in
      record {
        row = set_finished status answer reason (e.now db.ticks) row;
        found =
            rw
              (select-update_self (run_at t r) (set_finished status answer reason (e.now db.ticks))
                db.runs (λ x. refl))
              (first-map (set_finished status answer reason (e.now db.ticks))
                (select (run_at t r) db.runs) row found);
        has_status = refl;
        earlier = db.run_traces;
        event = new_event e t r "run_end" event_payload closed;
        newest = refl;
        of_run = ground (arith, ==_refl t, ==_refl r);
        is_end = refl;
        tells = tells;
      }

  pub ending :
      Ready t r 1 db
      → is_object event_payload ≡ true
      → get "status" event_payload ≡ some (str (as_str status))
      → (append_event e t r "run_end" event_payload closed
          ≡ (ok tt, logged e t r "run_end" event_payload closed))
        × EndsAs t r status (logged e t r "run_end" event_payload closed)
  unfolding finalize_run set_finished type_allowed
  ending ready object tells = (
    append_event-logged e t r "run_end" event_payload 0 closed (closed-Ready 1 ready) refl object,
    closed-EndsAs ready.stored tells,
  )

-- A run that fails with a reason.
pub fail_run-EndsAs :
    (e : Engine) (t r : ℕ) (reason : String) (db : Db)
    → Ready t r 1 db
    → ((fail_run e t r reason db).0 ≡ ok tt) × EndsAs t r failed (fail_run e t r reason db).1
unfolding fail_run ◌>>=◌ finalize_run is_object get get_field as_str
fail_run-EndsAs e t r reason db ready =
    let payload = object2 "status" (str "failed") "error_reason" (str reason) in
    let (runs, ends) = ending e t r failed none (some reason) payload db ready refl refl in
    rw runs (refl, ends)

-- A run that succeeds with an answer.
pub succeed-EndsAs :
    (e : Engine) (t r : ℕ) (answer : String) (db : Db)
    → Ready t r 1 db
    → ((succeed e t r answer db).0 ≡ ok tt) × EndsAs t r success (succeed e t r answer db).1
unfolding succeed ◌>>=◌ finalize_run is_object get get_field as_str
succeed-EndsAs e t r answer db ready =
    let payload = object2 "status" (str "success") "final_answer" (str answer) in
    let (runs, ends) = ending e t r success (some answer) none payload db ready refl refl in
    rw runs (refl, ends)
