-- ===== src/Examples/Runs.antt =====
-- Runs at the stored run of acme.
use mathlib.Core.Logic.Or
use mathlib.Core.List.{Mem, mem-cons, not-mem-nil}
use multi_tenant_agent_platf.Prelude.{◌≡◌, ◌≢◌, arith, refl, true, some, []}
use multi_tenant_agent_platf.Error.{in_failed_transaction, bad_request}
use multi_tenant_agent_platf.Error
use multi_tenant_agent_platf.Json.{is_array}
use multi_tenant_agent_platf.Exec.{ok, err, attempt, pure, ok_or, ◌>>=◌}
use multi_tenant_agent_platf.Rows.{select, exists}
use multi_tenant_agent_platf.Db.{Db, RunRow, ToolRow, admit}
use multi_tenant_agent_platf.Db.Tools.{tool_from_row, get_tool}
use multi_tenant_agent_platf.Db.Agents.{get_agent_tool_ids}
use multi_tenant_agent_platf.Db.Runs.{
  run_from_row, create_or_get_run, run_violation, new_run, inserted_or_existing, insert_run,
}
use multi_tenant_agent_platf.Db.Transaction.{transaction, run_in, finish}
use multi_tenant_agent_platf.Runtime.Decision.{authorize_tool_call, authorize_found}
use multi_tenant_agent_platf.Runtime.Authorization.{
  IsOwned, IsBound, authorize_tool_call-IsOwned, authorize_tool_call_foreign,
}
use multi_tenant_agent_platf.Idempotency.Creation.{create_or_get_run_twice}
use multi_tenant_agent_platf.Samples.{engine, to_value}
use multi_tenant_agent_platf.Samples.Scenario.{two_tenants, tool_row, greeting}

abbrev second_run : RunRow
second_run = new_run (engine true) 1 30 (to_value greeting) (some "k2") two_tenants

abbrev after : Db
after = (create_or_get_run (engine true) 1 30 (to_value greeting) (some "k2") two_tenants).1

-- Acme uses the key "k2" twice: PostgreSQL refuses the SELECT after the failed INSERT.
create_or_get_run_twice_example :
    ((create_or_get_run (engine true) 1 30 (to_value greeting) (some "k2") two_tenants).0
      ≡ ok (run_from_row second_run, true))
    × (create_or_get_run (engine true) 1 30 (to_value []) (some "k2") after
        ≡ (err (Error.db in_failed_transaction), after))
unfolding run_violation new_run exists is_array create_or_get_run transaction run_in attempt
    inserted_or_existing insert_run admit finish pure ◌>>=◌
create_or_get_run_twice_example =
    create_or_get_run_twice (engine true) 1 30 (to_value greeting) (to_value []) "k2" two_tenants
      after refl refl refl refl

authorize_tool_call-IsOwned_example :
    IsOwned 1 10 (tool_from_row (tool_row 1 10 "search")) two_tenants
    × IsBound 1 30 10 two_tenants
    × (two_tenants ≡ two_tenants)
unfolding authorize_tool_call authorize_found get_tool get_agent_tool_ids select ◌>>=◌ ok_or pure
    tool_from_row
authorize_tool_call-IsOwned_example =
    authorize_tool_call-IsOwned (engine true) 1 30 10 two_tenants
      (tool_from_row (tool_row 1 10 "search")) two_tenants refl

-- The tool is globex's, and so no row of acme's has its id.
not_of_acme : (row : ToolRow) → Mem row two_tenants.tools → row.tenant_id ≡ 1 → row.id ≢ 20
not_of_acme row m own same =
    Or.elim (λ a b. absurd a) (mem-cons.0 m) (λ e. ground (arith, e, same))
      λ n. Or.elim (λ a b. absurd a) (mem-cons.0 n) (λ e. ground (arith, e, own)) λ n. not-mem-nil n

authorize_tool_call_foreign_example :
    authorize_tool_call (engine true) 1 30 20 two_tenants
    ≡ (err (bad_request "tool_not_allowed_for_agent"), two_tenants)
authorize_tool_call_foreign_example =
    authorize_tool_call_foreign (engine true) 1 30 20 two_tenants not_of_acme
