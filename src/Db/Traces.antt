-- ===== src/Db/Traces.antt =====
-- server/src/trace.rs, and `get_trace` of server/src/db.rs.
use multi_tenant_agent_platf.Prelude.{
  ℕ, ◌+◌, String, Bool, ◌&&◌, ◌||◌, Option, none, some, List, [], ◌∷◌, ◌++◌, map, str_eq,
  if◌then◌else◌, ◌==◌, not, leb,
}
use multi_tenant_agent_platf.Json.{Value, is_object}
use multi_tenant_agent_platf.Error.{DbError, constraint, out_of_range}
use multi_tenant_agent_platf.Exec.{ok}
use multi_tenant_agent_platf.Rows.{select, exists, max_of}
use multi_tenant_agent_platf.Db.{Engine, Db, TraceRow, Action, admit, lift_db}
use multi_tenant_agent_platf.Db.Runs.{run_at}

pub record TraceRecord : Type 0 where
  pub seq : ℕ
  pub event_type : String
  pub payload : Value
  pub created_at : ℕ

unfoldable pub trace_from_row : TraceRow → TraceRecord
trace_from_row r = record {
  seq = r.seq;
  event_type = r.event_type;
  payload = r.payload;
  created_at = r.created_at;
}

-- WHERE tenant_id = $1 AND run_id = $2
abbrev pub trace_of : ℕ → ℕ → TraceRow → Bool
trace_of tenant_id run_id r = r.tenant_id == tenant_id && r.run_id == run_id

-- COALESCE(MAX(seq), 0) over the run's events
unfoldable pub last_seq : ℕ → ℕ → Db → ℕ
last_seq tenant_id run_id db =
    max_of (λ r. r.seq) (select (trace_of tenant_id run_id) db.run_traces)

-- The largest INTEGER.
abbrev pub max_integer : ℕ
max_integer = 2147483647

unfoldable pub type_allowed : String → Bool
type_allowed t =
    str_eq t "run_created"
    || str_eq t "scheduler_decision"
    || str_eq t "run_started"
    || str_eq t "llm_call"
    || str_eq t "tool_exec"
    || str_eq t "retry"
    || str_eq t "run_end"

unfoldable pub trace_violation : TraceRow → Db → Option DbError
trace_violation r db =
    if not (leb r.seq max_integer)
    then some out_of_range
    else if not (type_allowed r.event_type)
    then some (constraint "run_traces_type_check")
    else if not (is_object r.payload)
    then some (constraint "run_traces_payload_check")
    else if exists (λ u. trace_of r.tenant_id r.run_id u && u.seq == r.seq) db.run_traces
    then some (constraint "run_traces_tenant_id_run_id_seq_key")
    else if not (exists (run_at r.tenant_id r.run_id) db.runs)
    then some (constraint "run_traces_tenant_id_run_id_fkey")
    else none

-- The row that `append_event` tries to insert.
unfoldable pub new_event : Engine → ℕ → ℕ → String → Value → Db → TraceRow
new_event e tenant_id run_id event_type payload db = record {
  tenant_id = tenant_id;
  run_id = run_id;
  seq = last_seq tenant_id run_id db + 1;
  event_type = event_type;
  payload = payload;
  created_at = e.now db.ticks;
}

unfoldable pub append_event : Engine → ℕ → ℕ → String → Value → Action (Unit {0})
unfolding admit lift_db
append_event e tenant_id run_id event_type payload db =
    let row = new_event e tenant_id run_id event_type payload db in
    let after = record db { run_traces = db.run_traces ++ row ∷ []; ticks = db.ticks + 1 } in
    let (r, db') = admit (trace_violation row db) tt after db in (lift_db r, db')

unfoldable pub get_trace : Engine → ℕ → ℕ → Action (List TraceRecord)
unfolding trace_from_row
get_trace e tenant_id run_id db =
    let rows = select (trace_of tenant_id run_id) db.run_traces in
    (ok (map trace_from_row (e.order_by (λ r. r.seq) rows)), db)
