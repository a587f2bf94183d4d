-- ===== src/System.antt =====
-- The running server: clients' requests and the spawned runs, in any order. A request, and a run
-- from its start to its end, is one step; how their statements interleave is not modelled.
pub mod Permits
pub mod Admission
use multi_tenant_agent_platf.Prelude.{ℕ, ◌+◌, ◌≡◌, List, ◌∷◌, ◌++◌}
use multi_tenant_agent_platf.Runtime.{Services}
use multi_tenant_agent_platf.Runtime.Loop.{execute_run}
use multi_tenant_agent_platf.Scheduler.{App, Task, set_permits, tenant_permits}
use multi_tenant_agent_platf.Http.Routes.{Request, serve}

-- The spawned task runs to its end, and its two permits are dropped with it.
unfoldable pub complete : Services → List Task → Task → List Task → App → App
unfolding set_permits tenant_permits
complete v earlier task later app = record app {
  db = (execute_run v task.tenant_id task.run_id app.db).1;
  global = app.global + 1;
  tenants = set_permits task.tenant_id (tenant_permits task.tenant_id app + 1) app.tenants;
  tasks = earlier ++ later;
}

pub data Step (v : Services) (before after : App) : Type 0 where
  request : (r : Request) → after ≡ (serve v r before).1 → Step v before after
  ends :
      (earlier : List Task) (task : Task) (later : List Task)
      → before.tasks ≡ earlier ++ task ∷ later
      → after ≡ complete v earlier task later before
      → Step v before after

pub data Reach (v : Services) (start : App) : App → Type 0 where
  here : Reach v start start
  next : {s t : App} → Reach v start s → Step v s t → Reach v start t
