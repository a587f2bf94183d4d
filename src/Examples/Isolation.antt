-- ===== src/Examples/Isolation.antt =====
-- Isolation of tenants at two tenants that share the tables.
use multi_tenant_agent_platf.Prelude.{
  ℕ, ◌≡◌, ◌≢◌, refl, arith, true, false, String, Option, ap, [], ◌∷◌, sym, ◌∙◌,
}
use multi_tenant_agent_platf.Error.{AppError}
use multi_tenant_agent_platf.Exec.{Result, ok, err, pure, ok_or, of_result, ◌>>=◌}
use multi_tenant_agent_platf.Exec.Moves.{Moves}
use multi_tenant_agent_platf.Auth.{
  TenantContext, authenticate, to_str, extract_key_prefix, verify_api_key,
}
use multi_tenant_agent_platf.Text.{strip_prefix, split_once}
use multi_tenant_agent_platf.Rows.{select}
use multi_tenant_agent_platf.Db.Tenants.{find_active_api_key_by_prefix, key_record}
use multi_tenant_agent_platf.Http.Routes.{delete_tool, serve}
use multi_tenant_agent_platf.Runtime.Loop.{execute_run}
use multi_tenant_agent_platf.Tenancy.{Untouched}
use multi_tenant_agent_platf.Tenancy.Requests.{serve-Untouched, execute_run-Untouched}
use multi_tenant_agent_platf.Db.{Db}
use multi_tenant_agent_platf.Db.Tools.{
  list_tools, get_tool, list_agent_tools, find_unbound_active_tool,
}
use multi_tenant_agent_platf.Db.Agents.{get_agent, get_agent_tool_ids, tool_exists}
use multi_tenant_agent_platf.Db.Runs.{get_run, select_keyed_run}
use multi_tenant_agent_platf.Db.Traces.{get_trace}
use multi_tenant_agent_platf.Tenancy.Reads.{AreAlike, AreOldest, reads_agree}
use multi_tenant_agent_platf.Samples.{services, argon2, engine}
use multi_tenant_agent_platf.Samples.Scenario.{acme_headers, tool_row, two_tenants, server}

acme_authenticates :
    (authenticate argon2 acme_headers two_tenants).0 ≡ ok (record { tenant_id = 1 })
unfolding authenticate ◌>>=◌ ok_or to_str strip_prefix extract_key_prefix split_once
    find_active_api_key_by_prefix select key_record verify_api_key of_result pure
acme_authenticates = refl

tenant_of : Result AppError TenantContext → ℕ
tenant_of (ok c) = c.tenant_id
tenant_of (err e) = 0

only_acme :
    (a : ℕ)
    → (authenticate argon2 acme_headers two_tenants).0 ≡ ok (record { tenant_id = a })
    → a ≢ 2
unfolding tenant_of
only_acme a h = let same : 1 ≡ a = ap tenant_of (sym acme_authenticates ∙ h) in ground (arith, same)

-- The database in which globex has one tool more.
abbrev later : Db
later = record two_tenants {
  tools = tool_row 1 10 "search" ∷ tool_row 2 20 "search" ∷ tool_row 2 21 "mail" ∷ [];
}

serve-Untouched_example :
    Untouched 2 server.db (serve (services true) (delete_tool acme_headers 10) server).1.db
serve-Untouched_example =
    serve-Untouched (services true) 2 (delete_tool acme_headers 10) server only_acme

execute_run-Untouched_example : Moves (Untouched 2) (execute_run (services true) 1 40)
execute_run-Untouched_example = execute_run-Untouched (services true) 1 2 40 (ground arith)

-- Another tenant's requests do not show in what acme reads.
reads_agree_example :
    ((tool_id : ℕ) → (get_tool 1 tool_id two_tenants).0 ≡ (get_tool 1 tool_id later).0)
    × ((tool_id : ℕ) → (tool_exists 1 tool_id two_tenants).0 ≡ (tool_exists 1 tool_id later).0)
    × ((agent_id : ℕ) → (get_agent 1 agent_id two_tenants).0 ≡ (get_agent 1 agent_id later).0)
    × ((run_id : ℕ) → (get_run 1 run_id two_tenants).0 ≡ (get_run 1 run_id later).0)
    × ((agent_id : ℕ) (key : Option String)
        → (select_keyed_run 1 agent_id key two_tenants).0
          ≡ (select_keyed_run 1 agent_id key later).0)
    × AreAlike (list_tools (engine true) 1 two_tenants).0 (list_tools (engine false) 1 later).0
    × ((agent_id : ℕ)
        → AreAlike
            (get_agent_tool_ids (engine true) 1 agent_id two_tenants).0
            (get_agent_tool_ids (engine false) 1 agent_id later).0)
    × ((agent_id : ℕ)
        → AreAlike
            (list_agent_tools (engine true) 1 agent_id two_tenants).0
            (list_agent_tools (engine false) 1 agent_id later).0)
    × ((run_id : ℕ)
        → AreAlike
            (get_trace (engine true) 1 run_id two_tenants).0
            (get_trace (engine false) 1 run_id later).0)
    × ((agent_id : ℕ)
        → AreOldest
            (find_unbound_active_tool (engine true) 1 agent_id two_tenants).0
            (find_unbound_active_tool (engine false) 1 agent_id later).0)
unfolding select
reads_agree_example = reads_agree (engine true) (engine false) 1 two_tenants later refl
