-- ===== src/Examples/Settings.antt =====
-- The configuration, the start of the server and the toolbox at concrete values.
use multi_tenant_agent_platf.Prelude.{
  ℕ, ◌+◌, ◌≡◌, ◌≤◌, refl, arith, true, not, none, some, List, length, leb, str_eq, if◌then◌else◌,
}
use mathlib.Core.Quot
use mathlib.Core.List.{Pairwise}
use multi_tenant_agent_platf.Json.{obj, end, is_object}
use multi_tenant_agent_platf.Error.{duplicate_name}
use multi_tenant_agent_platf.Text.{usize_max}
use multi_tenant_agent_platf.Exec.{ok, err, pure, of_result, ok_or, ◌>>=◌}
use multi_tenant_agent_platf.Rows.{exists, select}
use multi_tenant_agent_platf.Db.Tools.{
  ToolRecord, tool_from_row, create_tool, delete_tool, list_tools,
}
use multi_tenant_agent_platf.Configuration.{
  Config, Environment, from_env, required, parse_usize, configured, parse_bool,
}
use multi_tenant_agent_platf.Configuration.Reading.{
  environment, from_env-environment, parse_usize-value,
}
use multi_tenant_agent_platf.Scheduler.{new}
use multi_tenant_agent_platf.System.{here}
use multi_tenant_agent_platf.System.Permits.{running_of}
use multi_tenant_agent_platf.Start.{Platform, migrate, listen, started, prepare}
use multi_tenant_agent_platf.Start.Limits.{IsConnected, IsServed, prepare-limits}
use multi_tenant_agent_platf.Toolbox.Contents.{any_tool, keep, has_id, contents}
use multi_tenant_agent_platf.Toolbox.Refinement.{
  create_tool-put, delete_tool-keep, list_tools-contents,
}
use multi_tenant_agent_platf.Samples.{services, engine}
use multi_tenant_agent_platf.Samples.Scenario.{config, two_tenants}

from_env-environment_example : from_env (environment config) ≡ ok config
from_env-environment_example = from_env-environment config (omega arith) (omega arith)

-- Only the database is named.
abbrev bare : Environment
bare key = if str_eq key "DATABASE_URL" then some "postgres://localhost/platform" else none

abbrev by_default : Config
by_default = record {
  database_url = "postgres://localhost/platform";
  bind_addr = "127.0.0.1:3000";
  rust_log = "info,sqlx=warn,hyper=warn";
  global_max_concurrency = 32;
  per_tenant_max_concurrency = 8;
  run_migrations = true;
}

-- 2 ^ 64, one more than the largest usize.
abbrev too_large : Environment
too_large key = some "18446744073709551616"

parse_usize-value_example :
    parse_usize too_large "GLOBAL_MAX_CONCURRENCY" 32
    ≡ err "GLOBAL_MAX_CONCURRENCY must be a positive integer"
parse_usize-value_example =
    parse_usize-value too_large "GLOBAL_MAX_CONCURRENCY" 32 "18446744073709551616" refl

create_tool-put_example :
    ((create_tool (engine true) 1 "search" (obj end) (obj end) two_tenants).0 ≡ err duplicate_name)
    × (contents 1 (create_tool (engine true) 1 "search" (obj end) (obj end) two_tenants).1
        ≡ contents 1 two_tenants)
unfolding exists any_tool select tool_from_row is_object
create_tool-put_example =
    create_tool-put (engine true) 1 "search" (obj end) (obj end) two_tenants refl refl refl refl

delete_tool-keep_example :
    ((delete_tool (engine true) 1 10 two_tenants).0 ≡ ok tt)
    × (contents 1 (delete_tool (engine true) 1 10 two_tenants).1
        ≡ keep (λ r. not (has_id 10 r)) (contents 1 two_tenants))
    × (contents 2 (delete_tool (engine true) 1 10 two_tenants).1 ≡ contents 2 two_tenants)
unfolding exists any_tool select tool_from_row
delete_tool-keep_example =
    delete_tool-keep (engine true) 1 2 10 two_tenants (λ e. ground (arith, e))

list_tools-contents_example :
    (tools : List ToolRecord) × (list_tools (engine true) 1 two_tenants ≡ (ok tools, two_tenants))
    × (Quot.mk tools ≡ contents 1 two_tenants)
    × Pairwise (λ a b. a.created_at ≤ b.created_at) tools
list_tools-contents_example = list_tools-contents (engine true) 1 two_tenants

four_deeds : (w : ℕ) → leb 4 (w + 4) ≡ true
four_deeds w = ground arith

-- The world counts what was done, and the migrations are there from the fourth deed on.
abbrev platform : Platform ℕ
platform = record {
  init_tracing = λ level w. w + 1;
  connect = λ url w. (some tt, w + 1);
  load_migrations = λ path w. (some tt, w + 1);
  run_migrations = λ w. (some tt, w + 4);
  bind = λ addr w. (some tt, w);
  serve = λ app w. (none, w);
  database = λ w. two_tenants;
  is_migrated = λ w. leb 4 w;
  run_migrations-is_migrated = λ w e. four_deeds w;
  bind-is_migrated = λ addr w. refl;
}

prepare-limits_example :
    (c : Config) × (from_env bare ≡ ok c)
    × IsConnected platform c 0
    × IsServed platform c (new by_default two_tenants) 7
    × (length (new by_default two_tenants).tasks ≤ c.global_max_concurrency)
    × ((t : ℕ) → running_of t (new by_default two_tenants).tasks ≤ c.per_tenant_max_concurrency)
    × (c.global_max_concurrency ≤ usize_max)
    × (c.per_tenant_max_concurrency ≤ usize_max)
unfolding prepare started listen migrate of_result pure ok_or ◌>>=◌ from_env required parse_usize
    configured parse_bool
prepare-limits_example =
    prepare-limits platform (services true) bare 0 7 (new by_default two_tenants)
      (new by_default two_tenants) refl here
