-- ===== src/Frames/Server.antt =====
-- What all statements keep holds over every history of the server.
use multi_tenant_agent_platf.Prelude.{ℕ, String}
use multi_tenant_agent_platf.Exec.Moves.{Moves, IsPreorder}
use multi_tenant_agent_platf.Db.{Db}
use multi_tenant_agent_platf.Db.Tenants.{create_tenant}
use multi_tenant_agent_platf.Runtime.{Services}
use multi_tenant_agent_platf.Scheduler.{App}
use multi_tenant_agent_platf.System.{complete, Step, request, ends, Reach, here, next}
use multi_tenant_agent_platf.Frames.{Writes}
use multi_tenant_agent_platf.Frames.Runs.{execute_run-Moves}
use multi_tenant_agent_platf.Frames.Requests.{all-Within, serve-Moves}

module _ {R : Db → Db → Type 0} (o : IsPreorder R) (v : Services)
    (w : (a : ℕ) → Writes R v.engine a)
    (tenant_made : (name : String) → Moves R (create_tenant v.engine name)) where
  Step-Moves : (s t : App) → Step v s t → R s.db t.db
  unfolding complete
  Step-Moves s t (request q e) = rw e (
      serve-Moves o (λ a. Unit {0}) v (λ a _. w a) tenant_made q s
        (all-Within (λ a. Unit {0}) v q s.db (λ a. tt)))
  Step-Moves s t (ends earlier task later e f) = rw f (
      (execute_run-Moves o task.tenant_id v task.run_id ((w task.tenant_id).runs task.run_id)).at
        s.db)

  pub Reach-Moves : (start : App) {app : App} → Reach v start app → R start.db app.db
  Reach-Moves start here = o.stay start.db
  Reach-Moves start (next r st) = o.chain start.db _ _ (Reach-Moves start r) (Step-Moves _ _ st)
