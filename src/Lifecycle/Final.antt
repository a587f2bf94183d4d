-- ===== src/Lifecycle/Final.antt =====
-- A run that has ended stays as it is.
use multi_tenant_agent_platf.Prelude.{
  ℕ, ◌≡◌, refl, ap, ◌∙◌, arith, String, Bool, true, false, ◌&&◌, Option, none, List, [], ◌∷◌, ◌++◌,
  ◌==◌, ==_iff, str_eq, Bool-cases, inl, inr, if◌then◌else◌, is_empty,
}
use multi_tenant_agent_platf.Json.{Value}
use multi_tenant_agent_platf.Core.{
  RunStatus, pending, running, success, failed, as_str, StartRunRequest,
}
use multi_tenant_agent_platf.Error.{not_found}
use multi_tenant_agent_platf.Rows.{exists, count, select}
use multi_tenant_agent_platf.Rows.Filtered.{select-insert_other, select-update_other}
use multi_tenant_agent_platf.Exec.{pure, ◌>>=◌}
use multi_tenant_agent_platf.Exec.Moves.{
  Moves, IsPreorder, Moves-bind, Moves-pure, Moves-raise, Moves-ok_or, Moves-if,
}
use multi_tenant_agent_platf.Exec.Inversion.{moves-bind}
use multi_tenant_agent_platf.Db.{Db, RunRow}
use multi_tenant_agent_platf.Db.Runs.{
  RunRecord, run_at, pending_run_at, run_violation, set_failed, set_running, set_finished,
  create_or_get_run,
}
use multi_tenant_agent_platf.Auth.{HeaderMap}
use multi_tenant_agent_platf.Runtime.{Services}
use multi_tenant_agent_platf.Runtime.Loop.{execute_run}
use multi_tenant_agent_platf.Scheduler.{App, AppAction, on_db}
use multi_tenant_agent_platf.Http.{start_run, launch}
use multi_tenant_agent_platf.System.{Reach, Step, request, ends, here, next, complete}
use multi_tenant_agent_platf.Frames.{IsFinal, RunWrites, TableWrites, get_agent-Moves}
use multi_tenant_agent_platf.Frames.Runs.{execute_run-Moves}
use multi_tenant_agent_platf.Frames.Transactions.{create_or_get_run-Moves}
use multi_tenant_agent_platf.Frames.Starting.{
  AppMoves, AppMoves-IsPreorder, on_db-Moves, launch-Moves, after_authenticate,
}
use multi_tenant_agent_platf.Frames.Requests.{all-Within, serve-moves}
use multi_tenant_agent_platf.Frames.Tables.{
  RunUpdates, OnRuns, OnRuns-IsPreorder, OnRuns-TableWrites, OnRuns-RunWrites, OnRuns-create_tenant,
}
use multi_tenant_agent_platf.Lifecycle.{Settled}
use multi_tenant_agent_platf.Lifecycle.Once.{
  Stays, added-Settled, Stays-RunChanges, fresh_id, execute_run_again,
}
use multi_tenant_agent_platf.Lifecycle.Created.{create_or_get_run-fresh}

-- An identifier that some row has is none that no row has.
other_id :
    (id r : ℕ) (rows : List RunRow)
    → exists (λ u. u.id == r) rows ≡ true
    → exists (λ u. u.id == id) rows ≡ false
    → (id == r) ≡ false
other_id id r rows there fresh = elim (Bool-cases (id == r)) [
  | inl same ↦
      absurd (cc (fresh, there, ap (λ k. exists (λ u. u.id == k) rows) ((==_iff id r).0 same)))
  | inr e ↦ e
]

module _ (t r : ℕ) where
  -- A settled run stays settled, and all its columns stay.
  abbrev Keeps : List RunRow → List RunRow → Type 0
  Keeps xs ys = Settled t r xs → Settled t r ys × (select (run_at t r) ys ≡ select (run_at t r) xs)

  Keeps-IsPreorder : IsPreorder Keeps
  Keeps-IsPreorder = record {
    stay = λ xs h. (h, refl);
    chain =
        λ xs ys zs f g h. let (h', same) = f h in let (h'', same') = g h' in (h'', same' ∙ same);
  }

  added-Keeps :
      (row : RunRow) (db : Db) → run_violation row db ≡ none → Keeps db.runs (db.runs ++ row ∷ [])
  added-Keeps row db clear h =
      let other = other_id row.id r db.runs h.0 (fresh_id row db clear) in
      (
        added-Settled t r row db clear h,
        select-insert_other (run_at t r) db.runs row (ground (arith, other)),
      )

  -- The updates of another run.
  updated-Keeps : (a run_id : ℕ) → (a == t && run_id == r) ≡ false → RunUpdates Keeps a run_id
  unfolding set_failed set_running set_finished
  updated-Keeps a run_id other =
      let u : RunUpdates (Stays t r) a run_id = (Stays-RunChanges t r).updated a run_id in
      record {
        failed = λ reason now rows h. (
          u.failed reason now rows h,
          select-update_other _ _ _ rows λ x e. ground (arith, e, other),
        );
        started = λ now rows h.
            (u.started now rows h, select-update_other _ _ _ rows λ x e. ground (arith, e, other));
        finished = λ status answer reason now rows final h. (
          u.finished status answer reason now rows final h,
          select-update_other _ _ _ rows λ x e. ground (arith, e, other),
        );
      }

  module _ (v : Services) where
    o : IsPreorder (OnRuns Keeps)
    o = OnRuns-IsPreorder Keeps-IsPreorder

    tables : (a : ℕ) → TableWrites (OnRuns Keeps) v.engine a
    tables a = OnRuns-TableWrites Keeps-IsPreorder v.engine added-Keeps a

    writes :
        (a run_id : ℕ)
        → (a == t && run_id == r) ≡ false
        → RunWrites (OnRuns Keeps) v.engine a run_id
    writes a run_id other =
        OnRuns-RunWrites Keeps-IsPreorder v.engine a run_id (updated-Keeps a run_id other)

    -- A task for another run does not touch this one, and a task for this one does nothing.
    execute_run-Keeps : (a run_id : ℕ) (db : Db) → OnRuns Keeps db (execute_run v a run_id db).1
    execute_run-Keeps a run_id db = elim (Bool-cases (a == t && run_id == r)) [
      | inr other ↦ (execute_run-Moves o a v run_id (writes a run_id other)).at db
      | inl same ↦ λ h.
          let a_t : a ≡ t = ground arith in
          let id_r : run_id ≡ r = ground arith in
          rw (a_t, id_r, execute_run_again v t r db h) (h, refl)
    ]

    -- What follows the creation of a run may assume that the run is another.
    launched-Keeps :
        {A : Type 0} (a agent_id : ℕ) (messages : Value) (key : Option String)
        (f : RunRecord × Bool → AppAction A)
        → ((created : RunRecord × Bool)
            → (created.1 ≡ true → (created.0.id == r) ≡ false)
            → Moves (AppMoves (OnRuns Keeps)) (f created))
        → Moves
            (AppMoves (OnRuns Keeps))
            (on_db (create_or_get_run v.engine a agent_id messages key) >>= f)
    unfolding on_db
    launched-Keeps a agent_id messages key f rest = record {
      at = λ app h.
          moves-bind (AppMoves-IsPreorder o)
            (on_db (create_or_get_run v.engine a agent_id messages key)) f app
            ((create_or_get_run-Moves o v.engine a (tables a) agent_id messages key).at app.db)
            (λ created e.
              (rest created λ new. other_id created.0.id r app.db.runs h.0 (
                  create_or_get_run-fresh v.engine a agent_id messages key app.db created e new)).at
                _)
            h;
    }

    scheduled-Keeps :
        (a : ℕ) (created : RunRecord × Bool)
        → (created.1 ≡ true → (created.0.id == r) ≡ false)
        → Moves (AppMoves (OnRuns Keeps)) (if created.1 then launch v a created.0.id else pure tt)
    scheduled-Keeps a created new = elim (Bool-cases created.1) [
      | inl e ↦
          rw e (launch-Moves o a v created.0.id (writes a created.0.id (ground (arith, new e))))
      | inr e ↦ rw e (Moves-pure (AppMoves-IsPreorder o) tt)
    ]

    start_run-Keeps :
        (headers : HeaderMap) (agent_id : ℕ) (body : StartRunRequest) (app : App)
        → AppMoves (OnRuns Keeps) app (start_run v headers agent_id body app).1
    unfolding start_run
    start_run-Keeps headers agent_id body app =
        let p = AppMoves-IsPreorder o in
        after_authenticate o (λ a. Unit {0}) v headers _ app (λ a e. tt)
          λ c here.
            Moves-bind p _ _ (on_db-Moves _ (get_agent-Moves o c.tenant_id agent_id)) λ found.
              Moves-bind p _ _ (Moves-ok_or p found not_found) λ agent.
                Moves-if p (is_empty body.messages) _ _ (Moves-raise p _) (
                  launched-Keeps c.tenant_id agent.id _ _ _ λ created new.
                    Moves-bind p _ _ (scheduled-Keeps c.tenant_id created new) λ _. Moves-pure p _)

    Step-Keeps : (s u : App) → Step v s u → OnRuns Keeps s.db u.db
    unfolding complete
    Step-Keeps s u (request q e) = rw e (
        serve-moves o (λ a. Unit {0}) v (λ a _. tables a)
          (OnRuns-create_tenant Keeps-IsPreorder v.engine) q s
          (all-Within (λ a. Unit {0}) v q s.db (λ a. tt))
          (λ headers agent_id body _. start_run-Keeps headers agent_id body s))
    Step-Keeps s u (ends earlier task later e f) =
        rw f (execute_run-Keeps task.tenant_id task.run_id s.db)

    Reach-Keeps : (start : App) {app : App} → Reach v start app → OnRuns Keeps start.db app.db
    Reach-Keeps start here = o.stay start.db
    Reach-Keeps start (next {s = s} {t = u} reached st) =
        o.chain start.db s.db u.db (Reach-Keeps start reached) (Step-Keeps s u st)

  pending-count :
      (rows : List RunRow)
      → count (pending_run_at t r) rows
        ≡ count (λ x. str_eq x.status "pending") (select (run_at t r) rows)
  unfolding count select
  pending-count [] = refl
  pending-count (x ∷ xs) = ground (arith, pending-count xs)

  select-exists :
      (rows : List RunRow) (row : RunRow) (others : List RunRow)
      → select (run_at t r) rows ≡ row ∷ others
      → exists (λ u. u.id == r) rows ≡ true
  unfolding exists select
  select-exists [] row others h = absurd (ground (arith, h))
  select-exists (x ∷ xs) row others h = elim (Bool-cases (run_at t r x)) [
    | inl e ↦ ground (arith, e)
    | inr e ↦ ground (arith, select-exists xs row others (rw e at h))
  ]

ended :
    (row : RunRow) (status : RunStatus)
    → IsFinal status
    → row.status ≡ as_str status
    → str_eq row.status "pending" ≡ false
unfolding as_str
ended row success final e = rw e refl
ended row failed final e = rw e refl
ended row pending final e = absurd final
ended row running final e = absurd final

-- A run that has ended, successfully or not, is never changed again: whatever requests and runs the server
-- goes through, the table holds the same one row for it, with the same status, answer, reason and times.
pub Reach_final :
    (v : Services) (t r : ℕ) (row : RunRow) (status : RunStatus) (start app : App)
    → select (run_at t r) start.db.runs ≡ row ∷ []
    → IsFinal status
    → row.status ≡ as_str status
    → Reach v start app
    → select (run_at t r) app.db.runs ≡ row ∷ []
unfolding count
Reach_final v t r row status start app one final e reached =
    let settled : Settled t r start.db.runs = (
      select-exists t r start.db.runs row [] one,
      pending-count t r start.db.runs ∙ rw (one, ended row status final e) refl,
    ) in
    (Reach-Keeps t r v start reached settled).1 ∙ one
