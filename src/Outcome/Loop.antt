-- ===== src/Outcome/Loop.antt =====
-- The agent loop to its end.
use multi_tenant_agent_platf.Prelude.{
  ℕ, zero, suc, ◌+◌, ◌≤◌, ◌≡◌, refl, Bool, true, false, ◌||◌, some, List, [], ◌∷◌, ◌++◌, arith, ltb,
  leb, if◌then◌else◌, Bool-cases, inl, inr,
}
use multi_tenant_agent_platf.Core.{ChatMessage, RunStatus, success, failed}
use multi_tenant_agent_platf.Exec.{ok, pure, ◌>>=◌}
use multi_tenant_agent_platf.Rows.{first, count}
use multi_tenant_agent_platf.Db.{Db}
use multi_tenant_agent_platf.Db.Tools.{ToolRecord}
use multi_tenant_agent_platf.Runtime.{Services}
use multi_tenant_agent_platf.Runtime.Loop.{agent_loop, go_on}
use multi_tenant_agent_platf.Outcome.{Ready, EndsAs}
use multi_tenant_agent_platf.Outcome.Ending.{fail_run-EndsAs}
use multi_tenant_agent_platf.Outcome.Rounds.{
  Answers, Allowed, after_tool, after_tool-Ready, round-tool, round-final,
}

-- Two tool results and the final answer take three rounds.
abbrev pub status_after : ℕ → RunStatus
status_after n = if leb 3 n then success else failed

module _ (v : Services) (t r agent_id : ℕ) (bound_tools : List ToolRecord) (tool : ToolRecord)
    (picked : first bound_tools ≡ some tool) (answers : Answers v tool) where
  pub agent_loop-EndsAs :
      (left iteration count : ℕ) (consumed : Bool) (messages : List ChatMessage) (db : Db)
      → count ≤ 2
      → Ready t r (left + left + 1) db
      → Allowed v t agent_id tool db
      → ((agent_loop v t r agent_id bound_tools false left iteration count consumed messages db).0
          ≡ ok tt)
        × EndsAs t r
            (status_after (count + left))
            (agent_loop v t r agent_id bound_tools false left iteration count consumed messages
              db).1
  unfolding agent_loop go_on pure ◌>>=◌
  agent_loop-EndsAs zero iteration count consumed messages db few ready allowed =
      let short : leb 3 (count + zero) ≡ false = ground arith in
      rw short (fail_run-EndsAs v.engine t r "max_iterations_exceeded" db ready)
  agent_loop-EndsAs (suc left) iteration count consumed messages db few ready allowed =
      elim (Bool-cases (ltb count 2)) [
        | inl less ↦
            let room : Ready t r (left + left + 1 + 1 + 1) db = record {
              stored = ready.stored;
              room = omega (arith, ready.room);
            } in
            let same : count + suc left ≡ count + 1 + left = omega arith in
            rw
              (
                round-tool v t r agent_id iteration count bound_tools tool picked answers db
                    (left + left + 1) room allowed less,
                same,
              )
              (agent_loop-EndsAs left (iteration + 1) (count + 1) (consumed || false)
                (messages ++ record { role = "tool"; content = answers.content } ∷ [])
                (after_tool v t r agent_id iteration count bound_tools tool picked answers db)
                (ground arith)
                (after_tool-Ready v t r agent_id iteration count bound_tools tool picked answers db
                  (left + left + 1) room)
                allowed)
        | inr enough ↦
            let room : Ready t r 2 db = record {
              stored = ready.stored;
              room = omega (arith, ready.room);
            } in
            let long : leb 3 (count + suc left) ≡ true = ground arith in
            let (done, ends) =
              round-final v t r agent_id iteration count bound_tools db room enough in
            rw (done, long) (refl, ends)
      ]
