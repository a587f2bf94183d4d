-- ===== src/System/Permits.antt =====
-- The semaphores: no permit is lost or made up, so the limits on concurrent runs hold.
use multi_tenant_agent_platf.Prelude.{
  ℕ, ◌+◌, ◌-◌, ◌≤◌, ◌≡◌, refl, ap, false, List, [], ◌∷◌, ◌++◌, arith, length, length-append,
  if◌then◌else◌, ◌==◌, inl, inr, Bool-cases, String,
}
use multi_tenant_agent_platf.Error.{AppError}
use multi_tenant_agent_platf.Exec.Moves.{
  Moves, IsPreorder, keeping-IsPreorder, Moves-bind, Moves-pure, Moves-raise, Moves-ok_or, Moves-if,
}
use multi_tenant_agent_platf.Rows.{count}
use multi_tenant_agent_platf.Rows.Filtered.{count-append}
use multi_tenant_agent_platf.Db.{Db, Action}
use multi_tenant_agent_platf.Core.{StartRunRequest}
use multi_tenant_agent_platf.Auth.{HeaderMap}
use multi_tenant_agent_platf.Runtime.{Services}
use multi_tenant_agent_platf.Configuration.{Config}
use multi_tenant_agent_platf.Scheduler.{
  App, Task, new, on_db, permits, set_permits, tenant_permits, reject, schedule_run,
}
use multi_tenant_agent_platf.Http.{launch, start_run}
use multi_tenant_agent_platf.Http.Routes.{Request, healthz, serve}
use multi_tenant_agent_platf.System.{complete, Step, request, ends, Reach, here, next}

abbrev pub running_of : ℕ → List Task → ℕ
running_of t tasks = count (λ (k : Task). k.tenant_id == t) tasks

-- The free permits and those that tasks hold add up to the configured numbers.
pub record IsBalanced (c : Config) (app : App) : Type 0 where
  pub config : app.config ≡ c
  pub global : app.global + length app.tasks ≡ c.global_max_concurrency
  pub tenants :
      (t : ℕ) → tenant_permits t app + running_of t app.tasks ≡ c.per_tenant_max_concurrency

permits-set_permits :
    (initial a n t : ℕ) (l : List (ℕ × ℕ))
    → permits initial t (set_permits a n l) ≡ (if a == t then n else permits initial t l)
unfolding permits set_permits
permits-set_permits initial a n t [] = refl
permits-set_permits initial a n t ((b, m) ∷ l) = ground (arith, permits-set_permits initial a n t l)

running_of-middle :
    (t : ℕ) (earlier : List Task) (task : Task) (later : List Task)
    → running_of t (earlier ++ task ∷ later)
      ≡ (if task.tenant_id == t then 1 else 0) + running_of t (earlier ++ later)
unfolding count
running_of-middle t [] task later = refl
running_of-middle t (k ∷ earlier) task later = omega (arith, running_of-middle t earlier task later)

new-IsBalanced : (c : Config) (db : Db) → IsBalanced c (new c db)
unfolding new tenant_permits permits count
new-IsBalanced c db = record { config = refl; global = omega arith; tenants = λ t. omega arith }

module _ (c : Config) where
  abbrev Keeps : App → App → Type 0
  Keeps before after = IsBalanced c before → IsBalanced c after

  Keeps-IsPreorder : IsPreorder Keeps
  Keeps-IsPreorder = keeping-IsPreorder (IsBalanced c)

  with_db : (app : App) (db : Db) → IsBalanced c app → IsBalanced c (record app { db = db })
  unfolding tenant_permits
  with_db app db h = record { config = h.config; global = h.global; tenants = h.tenants }

  on_db-Keeps : {A : Type 0} (m : Action A) → Moves Keeps (on_db m)
  unfolding on_db
  on_db-Keeps m = record { at = λ app. with_db app (m app.db).1 }

  reject-Keeps :
      (v : Services) (a run_id : ℕ) (reason : String) (error : AppError)
      → Moves Keeps (reject v a run_id reason error)
  unfolding reject
  reject-Keeps v a run_id reason error =
      search (Keeps-IsPreorder, Moves-bind, Moves-raise, on_db-Keeps)

  -- A tenant whose semaphore is looked up has as many permits as before.
  known-IsBalanced :
      (app : App) (a : ℕ)
      → IsBalanced c app
      → IsBalanced c (record app { tenants = set_permits a (tenant_permits a app) app.tenants })
  unfolding tenant_permits
  known-IsBalanced app a h = record {
    config = h.config;
    global = h.global;
    tenants = λ t. ground (
      arith,
      h.tenants t,
      permits-set_permits app.config.per_tenant_max_concurrency a
          (permits app.config.per_tenant_max_concurrency a app.tenants) t app.tenants,
    );
  }

  -- Both permits are taken, and the task that holds them is added.
  taken-IsBalanced :
      (app : App) (a run_id : ℕ)
      → IsBalanced c app
      → (app.global == 0) ≡ false
      → (tenant_permits a app == 0) ≡ false
      → IsBalanced c (record app {
        global = app.global - 1;
        tenants = set_permits a (tenant_permits a app - 1) app.tenants;
        tasks = app.tasks ++ record { tenant_id = a; run_id = run_id } ∷ [];
      })
  unfolding tenant_permits count
  taken-IsBalanced app a run_id h room free =
      let task : Task = record { tenant_id = a; run_id = run_id } in
      record {
        config = h.config;
        global = ground (arith, h.global, length-append app.tasks (task ∷ []));
        tenants = λ t. ground (
          arith,
          h.tenants t,
          count-append (λ (k : Task). k.tenant_id == t) app.tasks (task ∷ []),
          permits-set_permits app.config.per_tenant_max_concurrency a
              (permits app.config.per_tenant_max_concurrency a app.tenants - 1) t app.tenants,
        );
      }

  schedule_run-Keeps : (v : Services) (a run_id : ℕ) → Moves Keeps (schedule_run v a run_id)
  unfolding schedule_run
  schedule_run-Keeps v a run_id = record {
    at = λ app h. elim (Bool-cases (app.global == 0)) [
      | inl full ↦ rw full ((reject-Keeps v a run_id _ _).at app h)
      | inr room ↦ rw room (elim (Bool-cases (tenant_permits a app == 0)) [
        | inl full ↦ rw full ((reject-Keeps v a run_id _ _).at _ (known-IsBalanced app a h))
        | inr free ↦ rw free (taken-IsBalanced app a run_id h room free)
      ])
    ];
  }

  launch-Keeps : (v : Services) (a run_id : ℕ) → Moves Keeps (launch v a run_id)
  unfolding launch
  launch-Keeps v a run_id = search (Keeps-IsPreorder, Moves-bind, on_db-Keeps, schedule_run-Keeps)

  start_run-Keeps :
      (v : Services) (headers : HeaderMap) (agent_id : ℕ) (request : StartRunRequest)
      → Moves Keeps (start_run v headers agent_id request)
  unfolding start_run
  start_run-Keeps v headers agent_id body =
      search
        (
          Keeps-IsPreorder, Moves-bind, Moves-pure, Moves-raise, Moves-ok_or, Moves-if, on_db-Keeps,
          launch-Keeps,
        )
        depth 16

  serve-Keeps : (v : Services) (r : Request) → Moves Keeps (serve v r)
  unfolding serve
  serve-Keeps v (Request.start_run headers agent_id body) =
      search (Keeps-IsPreorder, Moves-bind, Moves-pure, start_run-Keeps)
  serve-Keeps v healthz = search (Keeps-IsPreorder, Moves-pure)
  serve-Keeps v _ = search (Keeps-IsPreorder, Moves-bind, Moves-pure, on_db-Keeps)

  complete-IsBalanced :
      (v : Services) (earlier : List Task) (task : Task) (later : List Task) (app : App)
      → app.tasks ≡ earlier ++ task ∷ later
      → IsBalanced c app
      → IsBalanced c (complete v earlier task later app)
  unfolding complete count
  complete-IsBalanced v earlier task later app e h = record {
    config = h.config;
    global = omega (
      arith,
      h.global,
      ap length e,
      length-append earlier (task ∷ later),
      length-append earlier later,
    );
    tenants = λ t. returned t;
  }
    where
      returned :
          (t : ℕ)
          → tenant_permits t (complete v earlier task later app) + running_of t (earlier ++ later)
            ≡ c.per_tenant_max_concurrency
      returned t =
          unfold tenant_permits in
          ground (
            arith,
            h.tenants t,
            ap (running_of t) e,
            running_of-middle t earlier task later,
            permits-set_permits app.config.per_tenant_max_concurrency task.tenant_id
                (permits app.config.per_tenant_max_concurrency task.tenant_id app.tenants + 1) t
                app.tenants,
          )

  -- In every state that the server reaches from its start, whatever the requests and the order in
  -- which runs end, the free permits and the running tasks add up to the configured limits, in all
  -- and for each tenant.
  pub Reach-IsBalanced :
      (v : Services) (db : Db) {app : App} → Reach v (new c db) app → IsBalanced c app
  Reach-IsBalanced v db here = new-IsBalanced c db
  Reach-IsBalanced v db (next r st) = Step-Keeps v _ _ st (Reach-IsBalanced v db r)
    where
      Step-Keeps : (v : Services) (s t : App) → Step v s t → IsBalanced c s → IsBalanced c t
      Step-Keeps v s t (request q e) h = rw e ((serve-Keeps v q).at s h)
      Step-Keeps v s t (ends earlier task later e f) h =
          rw f (complete-IsBalanced v earlier task later s e h)

-- In every state that the server reaches from its start, whatever the requests and the order in which
-- runs end, no more runs execute at a time than the configured limits allow, in all and for each tenant.
pub Reach_limits :
    (v : Services) (c : Config) (db : Db) (app : App)
    → Reach v (new c db) app
    → (length app.tasks ≤ c.global_max_concurrency)
      × ((t : ℕ) → running_of t app.tasks ≤ c.per_tenant_max_concurrency)
Reach_limits v c db app r =
    let h = Reach-IsBalanced c v db r in (omega (arith, h.global), λ t. omega (arith, h.tenants t))
