-- ===== src/Idempotency.antt =====
-- Idempotency keys (`create_or_get_run` of server/src/db.rs, uq_runs_idempotency of
-- server/migrations/0001_init.sql).
pub mod Creation
pub mod Keys
use multi_tenant_agent_platf.Prelude.{ℕ, String, ◌≤◌, some, List}
use multi_tenant_agent_platf.Rows.{count}
use multi_tenant_agent_platf.Db.{RunRow}
use multi_tenant_agent_platf.Db.Runs.{keyed_run_at}

-- No two runs share a tenant, an agent and a key. (A NULL key is equal to none, as in SQL.)
abbrev pub AreKeysUnique : List RunRow → Type 0
AreKeysUnique rows =
    (tenant_id agent_id : ℕ) (key : String)
    → count (keyed_run_at tenant_id agent_id (some key)) rows ≤ 1
