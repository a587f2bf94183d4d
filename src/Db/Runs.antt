-- ===== src/Db/Runs.antt =====
-- server/src/db.rs: runs.
use mathlib.Core.Option
use multi_tenant_agent_platf.Prelude.{
  ℕ, ◌+◌, String, Bool, true, false, ◌&&◌, Option, none, some, [], ◌∷◌, ◌++◌, str_eq, if◌then◌else◌,
  ◌==◌, not,
}
use multi_tenant_agent_platf.Json.{Value, is_array}
use multi_tenant_agent_platf.Core.{RunStatus, as_str}
use multi_tenant_agent_platf.Error.{DbError, AppError, constraint, row_not_found}
use multi_tenant_agent_platf.Error
use multi_tenant_agent_platf.Exec.{Result, ok, err, Exec, pure, raise, attempt, ◌>>=◌}
use multi_tenant_agent_platf.Rows.{select, first, exists, update, count}
use multi_tenant_agent_platf.Db.{Engine, Db, RunRow, Action, admit, fetch_one}
use multi_tenant_agent_platf.Db.Transaction.{Tx, run_in, transaction}
use multi_tenant_agent_platf.Db.Agents.{equal_text, agent_at, query_in}

pub record RunRecord : Type 0 where
  pub id : ℕ
  pub agent_id : ℕ
  pub status : String
  pub input_messages : Value
  pub final_answer : Option String
  pub error_reason : Option String
  pub created_at : ℕ
  pub started_at : Option ℕ
  pub finished_at : Option ℕ

unfoldable pub run_from_row : RunRow → RunRecord
run_from_row r = record {
  id = r.id;
  agent_id = r.agent_id;
  status = r.status;
  input_messages = r.input_messages;
  final_answer = r.final_answer;
  error_reason = r.error_reason;
  created_at = r.created_at;
  started_at = r.started_at;
  finished_at = r.finished_at;
}

abbrev pub run_at : ℕ → ℕ → RunRow → Bool
run_at tenant_id run_id r = r.tenant_id == tenant_id && r.id == run_id

-- WHERE tenant_id = $1 AND agent_id = $2 AND idempotency_key = $3, the key of uq_runs_idempotency
abbrev pub keyed_run_at : ℕ → ℕ → Option String → RunRow → Bool
keyed_run_at tenant_id agent_id key r =
    r.tenant_id == tenant_id && (r.agent_id == agent_id && equal_text r.idempotency_key key)

unfoldable pub run_violation : RunRow → Db → Option DbError
run_violation r db =
    if not (is_array r.input_messages)
    then some (constraint "runs_input_messages_check")
    else if exists (λ u. u.id == r.id) db.runs
    then some (constraint "runs_pkey")
    else if exists (keyed_run_at r.tenant_id r.agent_id r.idempotency_key) db.runs
    then some (constraint "uq_runs_idempotency")
    else if not (exists (agent_at r.tenant_id r.agent_id) db.agents)
    then some (constraint "runs_tenant_id_agent_id_fkey")
    else none

unfoldable pub insert_run : RunRow → Exec Db DbError RunRow
unfolding admit run_violation
insert_run row db =
    admit (run_violation row db) row
      (record db { runs = db.runs ++ row ∷ []; ticks = db.ticks + 1 }) db

-- fetch_one of the SELECT by idempotency key
unfoldable pub select_keyed_run : ℕ → ℕ → Option String → Exec Db DbError RunRow
unfolding fetch_one
select_keyed_run tenant_id agent_id key db =
    (fetch_one (first (select (keyed_run_at tenant_id agent_id key) db.runs)), db)

-- The arm of the match for a conflict on uq_runs_idempotency.
unfoldable pub existing_run : Engine → ℕ → ℕ → Option String → Exec Tx AppError (RunRecord × Bool)
unfolding run_from_row
existing_run e tenant_id agent_id key = do
  row ← query_in e (select_keyed_run tenant_id agent_id key)
  pure (run_from_row row, false)

-- The match on the result of the INSERT.
unfoldable pub inserted_or_existing :
    Engine → ℕ → ℕ → Option String → Result DbError RunRow → Exec Tx AppError (RunRecord × Bool)
unfolding run_from_row existing_run
inserted_or_existing e tenant_id agent_id key (ok row) = pure (run_from_row row, true)
inserted_or_existing e tenant_id agent_id key (err (constraint c)) =
    if str_eq c "uq_runs_idempotency"
    then existing_run e tenant_id agent_id key
    else raise (Error.db (constraint c))
inserted_or_existing e tenant_id agent_id key (err other) = raise (Error.db other)

-- The row that `create_or_get_run` tries to insert, with the columns' defaults.
unfoldable pub new_run : Engine → ℕ → ℕ → Value → Option String → Db → RunRow
new_run e tenant_id agent_id input_messages key db = record {
  id = e.gen_random_uuid db.ticks;
  tenant_id = tenant_id;
  agent_id = agent_id;
  status = "pending";
  input_messages = input_messages;
  final_answer = none;
  error_reason = none;
  idempotency_key = key;
  max_retries = 3;
  retry_count = 0;
  created_at = e.now db.ticks;
  started_at = none;
  finished_at = none;
}

unfoldable pub create_or_get_run :
    Engine → ℕ → ℕ → Value → Option String → Action (RunRecord × Bool)
unfolding transaction run_in attempt inserted_or_existing
create_or_get_run e tenant_id agent_id input_messages key db =
    let row = new_run e tenant_id agent_id input_messages key db in
    let body : Exec Tx AppError (RunRecord × Bool) = do
      inserted ← attempt (run_in e (insert_run row))
      inserted_or_existing e tenant_id agent_id key inserted
    in transaction e body db

-- The SET clauses of the three updates.
unfoldable pub set_failed : String → ℕ → RunRow → RunRow
set_failed reason now r = record r {
  status = "failed";
  error_reason = some reason;
  finished_at = some now;
}

unfoldable pub set_running : ℕ → RunRow → RunRow
set_running now r = record r { status = "running"; started_at = some now }

unfoldable pub set_finished : RunStatus → Option String → Option String → ℕ → RunRow → RunRow
unfolding as_str
set_finished status final_answer error_reason now r = record r {
  status = as_str status;
  final_answer = final_answer;
  error_reason = error_reason;
  finished_at = some now;
}

unfoldable pub mark_run_failed : Engine → ℕ → ℕ → String → Action (Unit {0})
mark_run_failed e tenant_id run_id error_reason db = (
  ok tt,
  record db {
    runs = update (run_at tenant_id run_id) (set_failed error_reason (e.now db.ticks)) db.runs;
    ticks = db.ticks + 1;
  },
)

-- WHERE id = $1 AND tenant_id = $2 AND status = 'pending'
abbrev pub pending_run_at : ℕ → ℕ → RunRow → Bool
pending_run_at tenant_id run_id r =
    r.tenant_id == tenant_id && (r.id == run_id && str_eq r.status "pending")

unfoldable pub begin_run_execution : Engine → ℕ → ℕ → Action Bool
begin_run_execution e tenant_id run_id db =
    let at = pending_run_at tenant_id run_id in
    (
      ok (count at db.runs == 1),
      record db { runs = update at (set_running (e.now db.ticks)) db.runs; ticks = db.ticks + 1 },
    )

unfoldable pub get_run : ℕ → ℕ → Action (Option RunRecord)
unfolding run_from_row
get_run tenant_id run_id db =
    (ok (Option.map run_from_row (first (select (run_at tenant_id run_id) db.runs))), db)

unfoldable pub finalize_run :
    Engine → ℕ → ℕ → RunStatus → Option String → Option String → Action (Unit {0})
finalize_run e tenant_id run_id status final_answer error_reason db =
    let finish = set_finished status final_answer error_reason (e.now db.ticks) in
    (
      ok tt,
      record db { runs = update (run_at tenant_id run_id) finish db.runs; ticks = db.ticks + 1 },
    )
