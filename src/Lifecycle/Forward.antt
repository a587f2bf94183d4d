-- ===== src/Lifecycle/Forward.antt =====
-- Runs are never taken away, and move only forward (server/src/db.rs).
use multi_tenant_agent_platf.Prelude.{
  ℕ, ◌≤◌, ◌≡◌, refl, ◌∙◌, arith, String, Bool, true, Option, some, List, [], ◌∷◌, ◌++◌, str_eq,
  if◌then◌else◌, Bool-cases, inl, inr,
}
use multi_tenant_agent_platf.Core.{RunStatus, pending, running, success, failed}
use multi_tenant_agent_platf.Rows.{update}
use multi_tenant_agent_platf.Exec.Moves.{IsPreorder}
use multi_tenant_agent_platf.Db.{RunRow}
use multi_tenant_agent_platf.Db.Runs.{run_at, set_failed, set_running, set_finished}
use multi_tenant_agent_platf.Runtime.{Services}
use multi_tenant_agent_platf.Scheduler.{App}
use multi_tenant_agent_platf.System.{Reach}
use multi_tenant_agent_platf.Frames.{IsFinal}
use multi_tenant_agent_platf.Frames.Server.{Reach-Moves}
use multi_tenant_agent_platf.Frames.Tables.{
  RunChanges, OnRuns-IsPreorder, OnRuns-Writes, OnRuns-create_tenant,
}

-- How far a run has come, by the text of its status.
abbrev pub rank : String → ℕ
rank status = if str_eq status "pending" then 0 else if str_eq status "running" then 1 else 2

-- The same run, later: only its outcome and its times may have changed.
pub record Advanced (x y : RunRow) : Type 0 where
  pub id : y.id ≡ x.id
  pub tenant : y.tenant_id ≡ x.tenant_id
  pub agent : y.agent_id ≡ x.agent_id
  pub messages : y.input_messages ≡ x.input_messages
  pub key : y.idempotency_key ≡ x.idempotency_key
  pub created : y.created_at ≡ x.created_at
  pub status : rank x.status ≤ rank y.status

-- The later table has the earlier one's runs in their places, and may have others after them.
abbrev pub Advances : List RunRow → List RunRow → Type 0
Advances [] ys = Unit {0}
Advances (x ∷ xs) [] = ⊥
Advances (x ∷ xs) (y ∷ ys) = Advanced x y × Advances xs ys

still : (x : RunRow) → Advanced x x
still x = record {
  id = refl;
  tenant = refl;
  agent = refl;
  messages = refl;
  key = refl;
  created = refl;
  status = omega arith;
}

Advances-stay : (xs : List RunRow) → Advances xs xs
Advances-stay [] = tt
Advances-stay (x ∷ xs) = (still x, Advances-stay xs)

Advanced-chain : (x y z : RunRow) → Advanced x y → Advanced y z → Advanced x z
Advanced-chain x y z f g = record {
  id = g.id ∙ f.id;
  tenant = g.tenant ∙ f.tenant;
  agent = g.agent ∙ f.agent;
  messages = g.messages ∙ f.messages;
  key = g.key ∙ f.key;
  created = g.created ∙ f.created;
  status = omega (arith, f.status, g.status);
}

Advances-chain : (xs ys zs : List RunRow) → Advances xs ys → Advances ys zs → Advances xs zs
Advances-chain [] ys zs f g = tt
Advances-chain (x ∷ xs) [] zs f g = absurd f
Advances-chain (x ∷ xs) (y ∷ ys) [] f g = absurd g
Advances-chain (x ∷ xs) (y ∷ ys) (z ∷ zs) (f, fs) (g, gs) =
    (Advanced-chain x y z f g, Advances-chain xs ys zs fs gs)

Advances-IsPreorder : IsPreorder Advances
Advances-IsPreorder = record { stay = Advances-stay; chain = Advances-chain }

added-Advances : (xs ys : List RunRow) → Advances xs (xs ++ ys)
added-Advances [] ys = tt
added-Advances (x ∷ xs) ys = (still x, added-Advances xs ys)

-- An UPDATE that moves forward every row that it meets.
updated-Advances :
    (q : RunRow → Bool) (f : RunRow → RunRow)
    → ((x : RunRow) → q x ≡ true → Advanced x (f x))
    → (rows : List RunRow) → Advances rows (update q f rows)
unfolding update
updated-Advances q f h [] = tt
updated-Advances q f h (x ∷ xs) = elim (Bool-cases (q x)) [
  | inl e ↦ rw e (h x e, updated-Advances q f h xs)
  | inr e ↦ rw e (still x, updated-Advances q f h xs)
]

-- A change of the outcome alone, to a status that is no step back.
outcome-Advanced :
    (x : RunRow) (status : String) (answer reason : Option String) (started finished : Option ℕ)
    → rank x.status ≤ rank status
    → Advanced x (record x {
      status = status;
      final_answer = answer;
      error_reason = reason;
      started_at = started;
      finished_at = finished;
    })
outcome-Advanced x status answer reason started finished forward = record {
  id = refl;
  tenant = refl;
  agent = refl;
  messages = refl;
  key = refl;
  created = refl;
  status = forward;
}

rank-le : (status : String) → rank status ≤ 2
rank-le status = ground arith

Advances-RunChanges : RunChanges Advances
unfolding set_failed set_running set_finished
Advances-RunChanges = record {
  added = λ row db clear. added-Advances db.runs (row ∷ []);
  updated = λ a run_id. record {
    failed = λ reason now rows.
        updated-Advances _ _
          (λ x e.
            outcome-Advanced x "failed" x.final_answer (some reason) x.started_at (some now)
              (rank-le x.status))
          rows;
    started = λ now rows.
        updated-Advances _ _
          (λ x e.
            outcome-Advanced x "running" x.final_answer x.error_reason (some now) x.finished_at
              (ground (arith, e)))
          rows;
    finished = finished a run_id;
  };
}
  where
    finished :
        (a run_id : ℕ) (status : RunStatus) (answer reason : Option String) (now : ℕ)
        (rows : List RunRow)
        → IsFinal status
        → Advances rows (update (run_at a run_id) (set_finished status answer reason now) rows)
    finished a run_id success answer reason now rows final =
        updated-Advances _ _
          (λ x e.
            outcome-Advanced x "success" answer reason x.started_at (some now) (rank-le x.status))
          rows
    finished a run_id failed answer reason now rows final =
        updated-Advances _ _
          (λ x e.
            outcome-Advanced x "failed" answer reason x.started_at (some now) (rank-le x.status))
          rows
    finished a run_id pending answer reason now rows final = absurd final
    finished a run_id running answer reason now rows final = absurd final

-- Whatever requests and runs the server goes through, no run is taken away or changes its identifier, its
-- tenant, its agent, its messages, its idempotency key or the time of its creation, and its status moves
-- only forward, from "pending" to "running" to an end.
pub Reach-Advances :
    (v : Services) (start app : App) → Reach v start app → Advances start.db.runs app.db.runs
Reach-Advances v start app reached =
    Reach-Moves (OnRuns-IsPreorder Advances-IsPreorder) v
      (OnRuns-Writes Advances-IsPreorder v.engine Advances-RunChanges)
      (OnRuns-create_tenant Advances-IsPreorder v.engine) start reached
