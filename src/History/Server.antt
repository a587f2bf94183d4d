-- ===== src/History/Server.antt =====
-- The log over every history of the server.
use multi_tenant_agent_platf.Prelude.{ℕ, ◌≡◌, map}
use multi_tenant_agent_platf.Exec.{ok}
use multi_tenant_agent_platf.Runtime.{Services}
use multi_tenant_agent_platf.Scheduler.{App}
use multi_tenant_agent_platf.System.{Reach}
use multi_tenant_agent_platf.Db.Traces.{trace_from_row, get_trace}
use multi_tenant_agent_platf.Frames.Server.{Reach-Moves}
use multi_tenant_agent_platf.History.{events, IsNumbered}
use multi_tenant_agent_platf.History.Numbering.{
  Logs, Logs-IsPreorder, Logs-Writes, create_tenant-Logs,
}
use multi_tenant_agent_platf.History.Reading.{get_trace-events}

-- Over any history of requests and runs, no trace event is changed, removed or inserted before
-- another: the log at the end is the log at the start followed by new events. And if the events of
-- each run were numbered 1, 2, 3, … without a gap at the start, they are so at the end.
pub Reach-Logs : (v : Services) (start app : App) → Reach v start app → Logs start.db app.db
Reach-Logs v start app r =
    Reach-Moves Logs-IsPreorder v (Logs-Writes v.engine) (create_tenant-Logs v.engine) start r

-- In every state that is reached from a numbered log, reading the trace of a run gives its events in
-- the order in which they were added, although the query orders them by their number.
pub get_trace_in_order :
    (v : Services) (start app : App) (tenant_id run_id : ℕ)
    → IsNumbered start.db
    → Reach v start app
    → (get_trace v.engine tenant_id run_id app.db).0
      ≡ ok (map trace_from_row (events tenant_id run_id app.db))
get_trace_in_order v start app tenant_id run_id h r =
    get_trace-events v.engine tenant_id run_id app.db ((Reach-Logs v start app r).1 h)
