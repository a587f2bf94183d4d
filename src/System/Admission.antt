-- ===== src/System/Admission.antt =====
-- The scheduler counts by permits; what it decides is a count of the running tasks.
use multi_tenant_agent_platf.Prelude.{
  ℕ, ◌≡◌, refl, ◌∙◌, Bool, true, false, List, [], ◌∷◌, ◌++◌, arith, length, leb, ◌==◌,
  if◌then◌else◌, inl, inr, Bool-cases, String,
}
use multi_tenant_agent_platf.Error.{AppError}
use multi_tenant_agent_platf.Exec.Moves.{Moves, IsPreorder, Moves-bind, Moves-raise}
use multi_tenant_agent_platf.Db.{Db, Action}
use multi_tenant_agent_platf.Runtime.{Services}
use multi_tenant_agent_platf.Configuration.{Config}
use multi_tenant_agent_platf.Scheduler.{App, Task, new, on_db, tenant_permits, reject, schedule_run}
use multi_tenant_agent_platf.System.{Reach}
use multi_tenant_agent_platf.System.Permits.{IsBalanced, running_of, Reach-IsBalanced}

-- The specification: a run of the tenant is admitted while fewer runs than the limits are running.
abbrev pub admission : Config → ℕ → List Task → Bool
admission c t tasks =
    if leb c.global_max_concurrency (length tasks)
    then false
    else if leb c.per_tenant_max_concurrency (running_of t tasks)
    then false
    else true

abbrev SameTasks : App → App → Type 0
SameTasks before after = after.tasks ≡ before.tasks

SameTasks-IsPreorder : IsPreorder SameTasks
SameTasks-IsPreorder = record { stay = λ s. refl; chain = λ s t u f g. g ∙ f }

on_db-SameTasks : {A : Type 0} (m : Action A) → Moves SameTasks (on_db m)
unfolding on_db
on_db-SameTasks m = record { at = λ app. refl }

reject-SameTasks :
    (v : Services) (t r : ℕ) (reason : String) (error : AppError)
    → Moves SameTasks (reject v t r reason error)
unfolding reject
reject-SameTasks v t r reason error =
    search (SameTasks-IsPreorder, Moves-bind, Moves-raise, on_db-SameTasks)

-- With balanced permits, none being free is the count of the tasks reaching the limit.
schedule_run-admission :
    (v : Services) (c : Config) (t r : ℕ) (app : App)
    → IsBalanced c app
    → (schedule_run v t r app).1.tasks ≡ (
        if admission c t app.tasks
        then app.tasks ++ record { tenant_id = t; run_id = r } ∷ []
        else app.tasks)
unfolding schedule_run
schedule_run-admission v c t r app h = elim (Bool-cases (app.global == 0)) [
  | inl full ↦
      let over : leb c.global_max_concurrency (length app.tasks) ≡ true =
        ground (arith, h.global) in
      rw (full, over) ((reject-SameTasks v t r _ _).at app)
  | inr room ↦
      let under : leb c.global_max_concurrency (length app.tasks) ≡ false =
        ground (arith, h.global) in
      elim (Bool-cases (tenant_permits t app == 0)) [
        | inl full ↦
            let over : leb c.per_tenant_max_concurrency (running_of t app.tasks) ≡ true =
              ground (arith, h.tenants t) in
            rw (room, full, under, over) ((reject-SameTasks v t r _ _).at _)
        | inr free ↦
            let below : leb c.per_tenant_max_concurrency (running_of t app.tasks) ≡ false =
              ground (arith, h.tenants t) in
            rw (room, free, under, below) refl
      ]
]

-- In every state that the server reaches from its start, scheduling a run spawns a task for it exactly
-- if fewer runs are running than the global limit, and fewer of the tenant's than its limit; otherwise
-- the running tasks stay as they are. So the counters of permits implement a count of the tasks.
pub Reach-admission :
    (v : Services) (c : Config) (db : Db) (t r : ℕ) (app : App)
    → Reach v (new c db) app
    → (schedule_run v t r app).1.tasks ≡ (
        if admission c t app.tasks
        then app.tasks ++ record { tenant_id = t; run_id = r } ∷ []
        else app.tasks)
Reach-admission v c db t r app reached =
    schedule_run-admission v c t r app (Reach-IsBalanced c v db reached)
