-- ===== src/Scheduler.antt =====
-- server/src/app.rs (AppState) and the scheduler of server/src/runtime.rs. A spawned task holds a
-- global and a tenant permit from its start to its end; a permit is one unit of a semaphore.
use multi_tenant_agent_platf.Prelude.{String, if◌then◌else◌, ℕ, ◌-◌, List, [], ◌∷◌, ◌++◌, ◌==◌}
use multi_tenant_agent_platf.Json.{Value, str, object2}
use multi_tenant_agent_platf.Error.{
  AppError, scheduler_capacity_exceeded, tenant_concurrency_limit_exceeded,
}
use multi_tenant_agent_platf.Exec.{ok, Exec, raise, within, ◌>>◌}
use multi_tenant_agent_platf.Db.{Engine, Db, Action}
use multi_tenant_agent_platf.Db.Runs.{mark_run_failed}
use multi_tenant_agent_platf.Db.Traces.{append_event}
use multi_tenant_agent_platf.Configuration.{Config}
use multi_tenant_agent_platf.Runtime.{Services}

pub record Task : Type 0 where
  pub tenant_id : ℕ
  pub run_id : ℕ

-- `global` and `tenants` hold the permits that are free; `tasks` the spawned runs that have not
-- ended.
pub record App : Type 0 where
  pub config : Config
  pub db : Db
  pub global : ℕ
  pub tenants : List (ℕ × ℕ)
  pub tasks : List Task

-- AppState::new
unfoldable pub new : Config → Db → App
new config db = record {
  config = config;
  db = db;
  global = config.global_max_concurrency;
  tenants = [];
  tasks = [];
}

abbrev pub AppAction : Type 0 → Type 0
AppAction A = Exec App AppError A

-- A call that is given the pool `&state.db`.
unfoldable pub on_db : {A : Type 0} → Action A → AppAction A
unfolding within
on_db = within (λ app. app.db) (λ db app. record app { db = db })

unfoldable pub permits : ℕ → ℕ → List (ℕ × ℕ) → ℕ
permits initial tenant_id [] = initial
permits initial tenant_id ((t, n) ∷ rest) =
    if t == tenant_id then n else permits initial tenant_id rest

-- entry(tenant_id).or_insert_with(…), with the count of free permits set
unfoldable pub set_permits : ℕ → ℕ → List (ℕ × ℕ) → List (ℕ × ℕ)
set_permits tenant_id n [] = (tenant_id, n) ∷ []
set_permits tenant_id n ((t, m) ∷ rest) =
    if t == tenant_id then (t, n) ∷ rest else (t, m) ∷ set_permits tenant_id n rest

-- The free permits of get_tenant_semaphore(tenant_id).
unfoldable pub tenant_permits : ℕ → App → ℕ
unfolding permits
tenant_permits tenant_id app = permits app.config.per_tenant_max_concurrency tenant_id app.tenants

unfoldable pub fail_run_before_start : Engine → ℕ → ℕ → String → Value → Action (Unit {0})
fail_run_before_start e tenant_id run_id reason scheduler_payload = do
  mark_run_failed e tenant_id run_id reason
  append_event e tenant_id run_id "scheduler_decision" scheduler_payload
  append_event e tenant_id run_id "run_end"
      (object2 "status" (str "failed") "error_reason" (str reason))

-- The arm of a failed try_acquire_owned(): the run fails, and a permit taken before is given back.
unfoldable pub reject : Services → ℕ → ℕ → String → AppError → AppAction (Unit {0})
unfolding fail_run_before_start on_db
reject v tenant_id run_id reason error = do
  on_db (
      fail_run_before_start v.engine tenant_id run_id reason
        (object2 "decision" (str "rejected") "reason" (str reason)))
  raise error

-- The global permit is dropped where the tenant has none left, so it is taken only with both free.
unfoldable pub schedule_run : Services → ℕ → ℕ → AppAction (Unit {0})
unfolding reject tenant_permits set_permits
schedule_run v tenant_id run_id app =
    if app.global == 0
    then reject v tenant_id run_id "scheduler_capacity_exceeded" scheduler_capacity_exceeded app
    else let free = tenant_permits tenant_id app in
      let known = record app { tenants = set_permits tenant_id free app.tenants } in
      if free == 0
      then reject v tenant_id run_id "tenant_concurrency_limit_exceeded"
          tenant_concurrency_limit_exceeded known
      else (
        ok tt,
        record app {
          global = app.global - 1;
          tenants = set_permits tenant_id (free - 1) app.tenants;
          tasks = app.tasks ++ record { tenant_id = tenant_id; run_id = run_id } ∷ [];
        },
      )
