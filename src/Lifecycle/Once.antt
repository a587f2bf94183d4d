-- ===== src/Lifecycle/Once.antt =====
-- A settled run stays settled, whatever the server does.
use multi_tenant_agent_platf.Prelude.{
  ℕ, ◌+◌, ◌≡◌, refl, ap, ◌∙◌, arith, String, Bool, true, false, Option, none, List, [], ◌∷◌, ◌++◌,
  ◌==◌, str_eq, ==_iff, Bool-cases, inl, inr,
}
use multi_tenant_agent_platf.Core.{RunStatus, pending, running, success, failed}
use multi_tenant_agent_platf.Rows.{exists, count, update}
use multi_tenant_agent_platf.Rows.Filtered.{
  exists-append, exists-update, count-append, count-update-le, count-update_self, update_none,
}
use multi_tenant_agent_platf.Error.{AppError}
use multi_tenant_agent_platf.Exec.{Result, ok, err, continue, ◌>>=◌, pure}
use multi_tenant_agent_platf.Exec.Moves.{IsPreorder, keeping-IsPreorder}
use multi_tenant_agent_platf.Db.{Db, RunRow}
use multi_tenant_agent_platf.Db.Runs.{
  run_at, pending_run_at, run_violation, set_failed, set_running, set_finished, begin_run_execution,
}
use multi_tenant_agent_platf.Runtime.{Services}
use multi_tenant_agent_platf.Runtime.Loop.{run_if_started, execute_run}
use multi_tenant_agent_platf.Scheduler.{App}
use multi_tenant_agent_platf.System.{Reach}
use multi_tenant_agent_platf.Frames.{IsFinal, Writes}
use multi_tenant_agent_platf.Frames.Runs.{run_if_started-Moves}
use multi_tenant_agent_platf.Frames.Server.{Reach-Moves}
use multi_tenant_agent_platf.Frames.Tables.{
  RunChanges, OnRuns, OnRuns-IsPreorder, OnRuns-Writes, OnRuns-create_tenant,
}
use multi_tenant_agent_platf.Lifecycle.{Settled}

-- The primary key refuses a second run of the same id.
pub fresh_id :
    (row : RunRow) (db : Db)
    → run_violation row db ≡ none
    → exists (λ u. u.id == row.id) db.runs ≡ false
unfolding run_violation
fresh_id row db h = ground arith

module _ (t r : ℕ) where
  abbrev pub Stays : List RunRow → List RunRow → Type 0
  Stays xs ys = Settled t r xs → Settled t r ys

  Stays-IsPreorder : IsPreorder Stays
  Stays-IsPreorder = keeping-IsPreorder (Settled t r)

  pub added-Settled :
      (row : RunRow) (db : Db) → run_violation row db ≡ none → Stays db.runs (db.runs ++ row ∷ [])
  unfolding count
  added-Settled row db clear (there, gone) =
      let other : (row.id == r) ≡ false = elim (Bool-cases (row.id == r)) [
        | inl same ↦ absurd (
            cc (
              fresh_id row db clear,
              there,
              ap (λ k. exists (λ u. u.id == k) db.runs) ((==_iff row.id r).0 same),
            ))
        | inr e ↦ e
      ] in
      (
        rw (exists-append (λ u. u.id == r) db.runs (row ∷ []), there) refl,
        rw (count-append (pending_run_at t r) db.runs (row ∷ []), gone) (ground arith),
      )

  -- An UPDATE by an id and a tenant that leaves no run pending.
  updated-Settled :
      (q : RunRow → Bool) (f : RunRow → RunRow) (rows : List RunRow)
      → ((x : RunRow) → (f x).id ≡ x.id)
      → ((x : RunRow) → str_eq (f x).status "pending" ≡ false)
      → Stays rows (update q f rows)
  updated-Settled q f rows keeps moves (there, gone) = (
    exists-update (λ u. u.id == r) q f rows (λ x. ap (λ k. k == r) (keeps x)) ∙ there,
    omega (
      arith,
      gone,
      count-update-le (pending_run_at t r) q f rows λ x h. absurd (ground (arith, moves x)),
    ),
  )

  pub Stays-RunChanges : RunChanges Stays
  unfolding set_failed set_running set_finished
  Stays-RunChanges = record {
    added = added-Settled;
    updated = λ a run_id. record {
      failed = λ reason now rows. updated-Settled _ _ rows (λ x. refl) (λ x. refl);
      started = λ now rows. updated-Settled _ _ rows (λ x. refl) (λ x. refl);
      finished = finished a run_id;
    };
  }
    where
      finished :
          (a run_id : ℕ) (status : RunStatus) (answer reason : Option String) (now : ℕ)
          (rows : List RunRow)
          → IsFinal status
          → Stays rows (update (run_at a run_id) (set_finished status answer reason now) rows)
      finished a run_id success answer reason now rows final =
          updated-Settled _ _ rows (λ x. refl) (λ x. refl)
      finished a run_id failed answer reason now rows final =
          updated-Settled _ _ rows (λ x. refl) (λ x. refl)
      finished a run_id pending answer reason now rows final = absurd final
      finished a run_id running answer reason now rows final = absurd final

  -- Starting the run settles it, whether or not it was pending.
  begin_run_execution-Settled :
      (v : Services) (db : Db)
      → exists (λ u. u.id == r) db.runs ≡ true
      → Settled t r (begin_run_execution v.engine t r db).1.runs
  unfolding begin_run_execution set_running
  begin_run_execution-Settled v db there = (
    exists-update (λ u. u.id == r) _ _ db.runs (λ x. refl) ∙ there,
    count-update_self (pending_run_at t r) _ db.runs λ x. ground arith,
  )

  execute_run-Settled :
      (v : Services) (db : Db)
      → exists (λ u. u.id == r) db.runs ≡ true
      → Settled t r (execute_run v t r db).1.runs
  unfolding execute_run ◌>>=◌
  execute_run-Settled v db there =
      go (begin_run_execution v.engine t r db).0 (begin_run_execution v.engine t r db).1
        (begin_run_execution-Settled v db there)
    where
      o : IsPreorder (OnRuns Stays)
      o = OnRuns-IsPreorder Stays-IsPreorder

      w : Writes (OnRuns Stays) v.engine t
      w = OnRuns-Writes Stays-IsPreorder v.engine Stays-RunChanges t

      go :
          (b : Result AppError Bool) (db' : Db)
          → Settled t r db'.runs
          → Settled t r (continue b (run_if_started v t r) db').1.runs
      go (err e) db' h = h
      go (ok can_start) db' h = (run_if_started-Moves o t v r (w.runs r) can_start).at db' h

-- Executing a settled run does nothing but the UPDATE that finds no row.
pub execute_run_again :
    (v : Services) (t r : ℕ) (db : Db)
    → Settled t r db.runs
    → execute_run v t r db ≡ (ok tt, record db { ticks = db.ticks + 1 })
unfolding execute_run ◌>>=◌ begin_run_execution run_if_started pure
execute_run_again v t r db (_, gone) =
    rw (gone, update_none (pending_run_at t r) (set_running (v.engine.now db.ticks)) db.runs gone)
      refl

-- After a task has executed a run of tenant `t`, in whatever way it ended, executing the run again at
-- any later time, whatever requests and runs come in between, succeeds and changes no table: the
-- agent loop of a run is entered at most once. The run has to be in the table at the start.
pub execute_run_once :
    (v : Services) (t r : ℕ) (start app : App)
    → exists (λ u. u.id == r) start.db.runs ≡ true
    → Reach v (record start { db = (execute_run v t r start.db).1 }) app
    → execute_run v t r app.db ≡ (ok tt, record app.db { ticks = app.db.ticks + 1 })
execute_run_once v t r start app there later = execute_run_again v t r app.db (
    Reach-Moves (OnRuns-IsPreorder (Stays-IsPreorder t r)) v
      (OnRuns-Writes (Stays-IsPreorder t r) v.engine (Stays-RunChanges t r))
      (OnRuns-create_tenant (Stays-IsPreorder t r) v.engine) _ later
      (execute_run-Settled t r v start.db there))
