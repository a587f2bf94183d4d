-- ===== src/History.antt =====
-- The trace of a run (server/src/trace.rs): events are only ever added, and those of each run are
-- numbered 1, 2, 3, … in the order in which they were added.
pub mod Numbering
pub mod Reading
pub mod Server
use multi_tenant_agent_platf.Prelude.{ℕ, suc, ◌≡◌, List, [], ◌∷◌, ◌++◌}
use multi_tenant_agent_platf.Rows.{select}
use multi_tenant_agent_platf.Db.{Db, TraceRow}
use multi_tenant_agent_platf.Db.Traces.{trace_of}

abbrev pub Numbered : ℕ → List TraceRow → Type 0
Numbered n [] = Unit {0}
Numbered n (r ∷ rs) = (r.seq ≡ suc n) × Numbered (suc n) rs

-- The events of a run, as they were added.
abbrev pub events : ℕ → ℕ → Db → List TraceRow
events tenant_id run_id db = select (trace_of tenant_id run_id) db.run_traces

abbrev pub IsNumbered : Db → Type 0
IsNumbered db = (tenant_id run_id : ℕ) → Numbered 0 (events tenant_id run_id db)

-- The log after is the log before with more events at its end.
abbrev pub Extends : Db → Db → Type 0
Extends before after = (more : List TraceRow) × (after.run_traces ≡ before.run_traces ++ more)
