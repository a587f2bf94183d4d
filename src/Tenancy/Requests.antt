-- ===== src/Tenancy/Requests.antt =====
-- Tenant isolation of the public interface and of the runs.
use multi_tenant_agent_platf.Prelude.{ℕ, ◌≢◌}
use multi_tenant_agent_platf.Exec.Moves.{Moves}
use multi_tenant_agent_platf.Runtime.{Services}
use multi_tenant_agent_platf.Runtime.Loop.{execute_run}
use multi_tenant_agent_platf.Scheduler.{App}
use multi_tenant_agent_platf.Http.Routes.{Request, serve}
use multi_tenant_agent_platf.Frames.Runs.{execute_run-Moves}
use multi_tenant_agent_platf.Frames.Requests.{Within, serve-Moves}
use multi_tenant_agent_platf.Tenancy.{Untouched, Untouched-IsPreorder}
use multi_tenant_agent_platf.Tenancy.Writes.{create_tenant-Untouched, Untouched-Writes}

-- No request changes a row of a tenant that it does not act for: whatever the request and its
-- result, tenant `t` owns the same API keys, tools, agents, bindings, runs and trace events
-- afterwards, unless the credentials of the request are those of `t` or it asks for a key for `t`.
pub serve-Untouched :
    (v : Services) (t : ℕ) (request : Request) (app : App)
    → Within (λ a. a ≢ t) v request app.db
    → Untouched t app.db (serve v request app).1.db
serve-Untouched v t request app within =
    serve-Moves (Untouched-IsPreorder t) (λ a. a ≢ t) v
      (λ a other. Untouched-Writes a t other v.engine) (create_tenant-Untouched t v.engine) request
      app within

-- A run of tenant `a`, from its start to whichever end, changes no row of another tenant.
pub execute_run-Untouched :
    (v : Services) (a t run_id : ℕ) → a ≢ t → Moves (Untouched t) (execute_run v a run_id)
execute_run-Untouched v a t run_id other =
    execute_run-Moves (Untouched-IsPreorder t) a v run_id
      ((Untouched-Writes a t other v.engine).runs run_id)
