-- ===== src/Examples/Agents.antt =====
-- New agents, and a run without a permit.
use multi_tenant_agent_platf.Prelude.{◌≡◌, refl, arith, true, none, [], ◌∷◌, ◌++◌, pos}
use multi_tenant_agent_platf.Core.{failed}
use multi_tenant_agent_platf.Error.{not_found, tenant_concurrency_limit_exceeded}
use multi_tenant_agent_platf.Exec.{ok, err}
use multi_tenant_agent_platf.Rows.{exists, select, max_of}
use multi_tenant_agent_platf.Db.{AgentRow}
use multi_tenant_agent_platf.Db.Agents.{
  create_agent, agent_from_row, agent_violation, iterations_allowed,
}
use multi_tenant_agent_platf.Db.Traces.{last_seq}
use multi_tenant_agent_platf.Scheduler.{App, schedule_run, tenant_permits, permits}
use multi_tenant_agent_platf.Binding.Loop.{bound}
use multi_tenant_agent_platf.Binding.Agent.{new_agent, create_agent_rolled_back, create_agent-bound}
use multi_tenant_agent_platf.Outcome.{EndsAs}
use multi_tenant_agent_platf.Outcome.Rejected.{schedule_run-refusal}
use multi_tenant_agent_platf.Samples.{engine, services}
use multi_tenant_agent_platf.Samples.Scenario.{two_tenants, server}

-- The second tool belongs to globex.
create_agent_rolled_back_example :
    create_agent (engine true) 1 none "Hi." (10 ∷ 20 ∷ []) (pos 5) two_tenants
    ≡ (err not_found, two_tenants)
unfolding agent_violation iterations_allowed exists
create_agent_rolled_back_example =
    create_agent_rolled_back (engine true) 1 none "Hi." (10 ∷ []) 20 [] (pos 5) two_tenants refl
      refl refl refl refl

abbrev added : AgentRow
added = new_agent (engine true) 1 none "Hi." (pos 5) two_tenants

create_agent-bound_example :
    create_agent (engine true) 1 none "Hi." (10 ∷ []) (pos 5) two_tenants ≡ (
      ok (agent_from_row added),
      bound 7 1 107
          (10 ∷ [])
          (record two_tenants { agents = two_tenants.agents ++ added ∷ []; ticks = 8 }),
    )
unfolding agent_violation iterations_allowed exists
create_agent-bound_example =
    create_agent-bound (engine true) 1 none "Hi." (10 ∷ []) (pos 5) two_tenants refl refl refl refl

-- Acme's only permit is taken.
abbrev busy : App
busy = record server {
  global = 1;
  tenants = (1, 0) ∷ [];
  tasks = record { tenant_id = 1; run_id = 39 } ∷ [];
}

schedule_run-refusal_example :
    ((schedule_run (services true) 1 40 busy).0 ≡ err tenant_concurrency_limit_exceeded)
    × EndsAs 1 40 failed (schedule_run (services true) 1 40 busy).1.db
    × ((schedule_run (services true) 1 40 busy).1.tasks ≡ busy.tasks)
    × ((schedule_run (services true) 1 40 busy).1.global ≡ busy.global)
unfolding tenant_permits permits exists select last_seq max_of
schedule_run-refusal_example =
    schedule_run-refusal (services true) 1 40 "tenant_concurrency_limit_exceeded"
      tenant_concurrency_limit_exceeded busy refl (record { stored = refl; room = ground arith })
