-- ===== src/Lifecycle.antt =====
-- The life of a run (server/src/db.rs, server/src/runtime.rs): a run leaves `pending` once, so its
-- agent loop is entered at most once.
pub mod Once
pub mod Forward
pub mod Created
pub mod Final
use multi_tenant_agent_platf.Prelude.{ℕ, ◌≡◌, true, List, ◌==◌}
use multi_tenant_agent_platf.Rows.{exists, count}
use multi_tenant_agent_platf.Db.{RunRow}
use multi_tenant_agent_platf.Db.Runs.{pending_run_at}

-- The run has been inserted, and is pending no more.
abbrev pub Settled : ℕ → ℕ → List RunRow → Type 0
Settled tenant_id run_id rows =
    (exists (λ u. u.id == run_id) rows ≡ true) × (count (pending_run_at tenant_id run_id) rows ≡ 0)
