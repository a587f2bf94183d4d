-- ===== src/Outcome/Rejected.antt =====
-- A run that finds no permit (`schedule_run` of server/src/runtime.rs).
use multi_tenant_agent_platf.Prelude.{
  ℕ, ◌≡◌, refl, String, true, Option, none, some, ◌∙◌, arith, ◌==◌, ==_refl, if◌then◌else◌,
  Bool-cases, inl, inr,
}
use multi_tenant_agent_platf.Json.{Value, str, object2, get, get_field, is_object}
use multi_tenant_agent_platf.Core.{failed, as_str}
use multi_tenant_agent_platf.Error.{
  AppError, scheduler_capacity_exceeded, tenant_concurrency_limit_exceeded,
}
use multi_tenant_agent_platf.Exec.{ok, err, raise, within, ◌>>=◌}
use multi_tenant_agent_platf.Rows.{select}
use multi_tenant_agent_platf.Rows.Filtered.{exists-update, select-update_self, first-exists}
use multi_tenant_agent_platf.Db.{Engine, Db}
use multi_tenant_agent_platf.Db.Runs.{run_at, set_failed, mark_run_failed}
use multi_tenant_agent_platf.Db.Traces.{new_event, type_allowed, last_seq}
use multi_tenant_agent_platf.Runtime.{Services}
use multi_tenant_agent_platf.Scheduler.{
  App, tenant_permits, on_db, fail_run_before_start, reject, schedule_run,
}
use multi_tenant_agent_platf.Outcome.{Ready, EndsAs}
use multi_tenant_agent_platf.Outcome.Logging.{logged, append_event-logged, logged-Ready}
use multi_tenant_agent_platf.Outcome.Ending.{first-map}

-- Why a run of the tenant is not accepted: the global limit is looked at first.
abbrev pub refusal : ℕ → App → Option (String × AppError)
refusal tenant_id app =
    if app.global == 0
    then some ("scheduler_capacity_exceeded", scheduler_capacity_exceeded)
    else if tenant_permits tenant_id app == 0
    then some ("tenant_concurrency_limit_exceeded", tenant_concurrency_limit_exceeded)
    else none

module _ (e : Engine) (t r : ℕ) (reason : String) (payload : Value) (db : Db) where
  marked-Ready : (n : ℕ) → Ready t r n db → Ready t r n (mark_run_failed e t r reason db).1
  unfolding mark_run_failed set_failed last_seq
  marked-Ready n ready = record {
    stored = exists-update (run_at t r) _ _ db.runs (λ x. refl) ∙ ready.stored;
    room = ready.room;
  }

  fail_run_before_start-EndsAs :
      Ready t r 2 db
      → is_object payload ≡ true
      → ((fail_run_before_start e t r reason payload db).0 ≡ ok tt)
        × EndsAs t r failed (fail_run_before_start e t r reason payload db).1
  unfolding fail_run_before_start mark_run_failed set_failed ◌>>=◌ new_event type_allowed is_object
      get get_field as_str
  fail_run_before_start-EndsAs ready object =
      let marked = (mark_run_failed e t r reason db).1 in
      let decided = logged e t r "scheduler_decision" payload marked in
      let end_payload = object2 "status" (str "failed") "error_reason" (str reason) in
      let logs =
        append_event-logged e t r "scheduler_decision" payload 1 marked (marked-Ready 2 ready) refl
          object in
      let room =
        logged-Ready e t r "scheduler_decision" payload 1 marked (marked-Ready 2 ready) refl
          object in
      let ends = append_event-logged e t r "run_end" end_payload 0 decided room refl refl in
      let (row, found) = first-exists (run_at t r) db.runs ready.stored in
      let finished = set_failed reason (e.now db.ticks) in
      (
        rw (logs, ends) refl,
        rw (logs, ends)
            (record {
              row = finished row;
              found =
                  rw (select-update_self (run_at t r) finished db.runs (λ x. refl))
                    (first-map finished (select (run_at t r) db.runs) row found);
              has_status = refl;
              earlier = decided.run_traces;
              event = new_event e t r "run_end" end_payload decided;
              newest = refl;
              of_run = ground (arith, ==_refl t, ==_refl r);
              is_end = refl;
              tells = refl;
            }),
      )

reject-EndsAs :
    (v : Services) (t r : ℕ) (reason : String) (error : AppError) (app : App)
    → Ready t r 2 app.db
    → ((reject v t r reason error app).0 ≡ err error)
      × EndsAs t r failed (reject v t r reason error app).1.db
      × ((reject v t r reason error app).1.tasks ≡ app.tasks)
      × ((reject v t r reason error app).1.global ≡ app.global)
unfolding reject on_db within raise ◌>>=◌ is_object
reject-EndsAs v t r reason error app ready =
    let (done, ends) =
      fail_run_before_start-EndsAs v.engine t r reason
        (object2 "decision" (str "rejected") "reason" (str reason)) app.db ready refl in
    rw done (refl, ends, refl, refl)

-- A run for which no permit is free is rejected: the answer is the error of the limit that was hit, the
-- global one first, the run's status and its run_end event, the newest of the log, say "failed", no
-- task is spawned and no global permit is lost. The run is stored, with room for two event numbers.
pub schedule_run-refusal :
    (v : Services) (t r : ℕ) (reason : String) (error : AppError) (app : App)
    → refusal t app ≡ some (reason, error)
    → Ready t r 2 app.db
    → ((schedule_run v t r app).0 ≡ err error)
      × EndsAs t r failed (schedule_run v t r app).1.db
      × ((schedule_run v t r app).1.tasks ≡ app.tasks)
      × ((schedule_run v t r app).1.global ≡ app.global)
unfolding schedule_run
schedule_run-refusal v t r reason error app refused ready = elim (Bool-cases (app.global == 0)) [
  | inl full ↦
      let same : scheduler_capacity_exceeded ≡ error = ground (arith, rw full at refused) in
      rw (full, same) (reject-EndsAs v t r _ error app ready)
  | inr room ↦ elim (Bool-cases (tenant_permits t app == 0)) [
    | inl full ↦
        let same : tenant_concurrency_limit_exceeded ≡ error =
          ground (arith, rw (room, full) at refused) in
        rw (room, full, same) (reject-EndsAs v t r _ error _ ready)
    | inr free ↦ absurd (ground (arith, rw (room, free) at refused))
  ]
]
