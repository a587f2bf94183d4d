-- ===== src/Outcome.antt =====
-- How a run ends (`execute_run` of server/src/runtime.rs).
pub mod Logging
pub mod Ending
pub mod Rounds
pub mod Loop
pub mod Run
pub mod Stuck
pub mod Refused
pub mod Rejected
pub mod Counting
pub mod Calls
pub mod Closing
pub mod Completed
pub mod Observed
use multi_tenant_agent_platf.Prelude.{ℕ, ◌+◌, ◌≤◌, ◌≡◌, String, true, some, List, [], ◌∷◌, ◌++◌}
use multi_tenant_agent_platf.Json.{str, get}
use multi_tenant_agent_platf.Core.{RunStatus, as_str}
use multi_tenant_agent_platf.Rows.{exists, select, first}
use multi_tenant_agent_platf.Db.{Db, RunRow, TraceRow}
use multi_tenant_agent_platf.Db.Runs.{run_at}
use multi_tenant_agent_platf.Db.Traces.{trace_of, last_seq, max_integer}

-- The run is stored, and its events can be numbered for `n` events more.
pub record Ready (tenant_id run_id n : ℕ) (db : Db) : Type 0 where
  pub stored : exists (run_at tenant_id run_id) db.runs ≡ true
  pub room : last_seq tenant_id run_id db + n ≤ max_integer

-- The run has the status, and the newest event of the log is its run_end event, which tells the same
-- status.
pub record EndsAs (tenant_id run_id : ℕ) (status : RunStatus) (db : Db) : Type 0 where
  pub row : RunRow
  pub found : first (select (run_at tenant_id run_id) db.runs) ≡ some row
  pub has_status : row.status ≡ as_str status
  pub earlier : List TraceRow
  pub event : TraceRow
  pub newest : db.run_traces ≡ earlier ++ event ∷ []
  pub of_run : trace_of tenant_id run_id event ≡ true
  pub is_end : event.event_type ≡ "run_end"
  pub tells : get "status" event.payload ≡ some (str (as_str status))
