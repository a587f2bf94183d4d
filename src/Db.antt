-- ===== src/Db.antt =====
-- The database of server/src/db.rs and server/src/trace.rs: the tables of
-- server/migrations/0001_init.sql, and PostgreSQL's part as a parameter. The statements stand in the
-- modules below. `api_keys.id` and `run_traces.id` are left out: no statement names them.
pub mod Tenants
pub mod Tools
pub mod Transaction
pub mod Agents
pub mod Runs
pub mod Traces
use mathlib.Core.List.{Perm, Pairwise}
use multi_tenant_agent_platf.Prelude.{
  ℕ, ◌+◌, ◌≤◌, String, Bool, Option, none, some, List, ℤ, str_eq, if◌then◌else◌,
}
use multi_tenant_agent_platf.Json.{Value}
use multi_tenant_agent_platf.Error.{AppError, DbError, constraint, row_not_found}
use multi_tenant_agent_platf.Error
use multi_tenant_agent_platf.Exec.{Result, ok, err, Exec}

-- What PostgreSQL decides: the values of gen_random_uuid() and now() in the n-th statement, the
-- order that ORDER BY gives to rows with equal keys, and whether a transaction in which a statement
-- has failed refuses the statements after it.
pub record Engine : Type 1 where
  pub gen_random_uuid : ℕ → ℕ
  pub now : ℕ → ℕ
  pub order_by : {A : Type 0} → (A → ℕ) → List A → List A
  pub order_by-perm : {A : Type 0} (key : A → ℕ) (rows : List A) → Perm (order_by key rows) rows
  pub order_by-sorted :
      {A : Type 0} (key : A → ℕ) (rows : List A)
      → Pairwise (λ a b. key a ≤ key b) (order_by key rows)
  pub aborts : Bool

pub record TenantRow : Type 0 where
  pub id : ℕ
  pub name : String
  pub created_at : ℕ

pub record ApiKeyRow : Type 0 where
  pub tenant_id : ℕ
  pub key_prefix : String
  pub key_hash : String
  pub created_at : ℕ
  pub revoked_at : Option ℕ

pub record ToolRow : Type 0 where
  pub id : ℕ
  pub tenant_id : ℕ
  pub name : String
  pub input_schema : Value
  pub mock_handler : Value
  pub created_at : ℕ
  pub deleted_at : Option ℕ

pub record AgentRow : Type 0 where
  pub id : ℕ
  pub tenant_id : ℕ
  pub name : Option String
  pub system_prompt : String
  pub max_iterations : ℤ
  pub created_at : ℕ
  pub deleted_at : Option ℕ

pub record AgentToolRow : Type 0 where
  pub tenant_id : ℕ
  pub agent_id : ℕ
  pub tool_id : ℕ
  pub created_at : ℕ

pub record RunRow : Type 0 where
  pub id : ℕ
  pub tenant_id : ℕ
  pub agent_id : ℕ
  pub status : String
  pub input_messages : Value
  pub final_answer : Option String
  pub error_reason : Option String
  pub idempotency_key : Option String
  pub max_retries : ℕ
  pub retry_count : ℕ
  pub created_at : ℕ
  pub started_at : Option ℕ
  pub finished_at : Option ℕ

pub record TraceRow : Type 0 where
  pub tenant_id : ℕ
  pub run_id : ℕ
  pub seq : ℕ
  pub event_type : String
  pub payload : Value
  pub created_at : ℕ

-- `ticks` counts the statements and transactions that have taken a UUID or a time.
pub record Db : Type 0 where
  pub tenants : List TenantRow
  pub api_keys : List ApiKeyRow
  pub tools : List ToolRow
  pub agents : List AgentRow
  pub agent_tools : List AgentToolRow
  pub runs : List RunRow
  pub run_traces : List TraceRow
  pub ticks : ℕ

-- A function of db.rs or trace.rs.
abbrev pub Action : Type 0 → Type 0
Action A = Exec Db AppError A

-- An INSERT adds its row if no constraint refuses it.
unfoldable pub admit : {A : Type 0} → Option DbError → A → Db → Db → Result DbError A × Db
admit none row after before = (ok row, after)
admit (some e) row after before = (err e, before)

-- fetch_one on the first of the rows
unfoldable pub fetch_one : {A : Type 0} → Option A → Result DbError A
fetch_one none = err row_not_found
fetch_one (some a) = ok a

-- `?` on an sqlx error.
unfoldable pub lift_db : {A : Type 0} → Result DbError A → Result AppError A
lift_db (ok a) = ok a
lift_db (err e) = err (Error.db e)

-- The match on `err.constraint() == Some(name)` after an INSERT.
unfoldable pub on_constraint :
    {A : Type 0} → String → AppError → Result DbError A → Result AppError A
on_constraint name e (ok a) = ok a
on_constraint name e (err (constraint c)) =
    if str_eq c name then err e else err (Error.db (constraint c))
on_constraint name e (err other) = err (Error.db other)
