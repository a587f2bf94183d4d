-- ===== src/Frames/Starting.antt =====
-- Starting a run: the handler `start_run` with the scheduler, on the whole server state.
use multi_tenant_agent_platf.Prelude.{ℕ, String, ◌≡◌, refl, ◌==◌, inl, inr, Bool-cases}
use multi_tenant_agent_platf.Core.{StartRunRequest}
use multi_tenant_agent_platf.Error.{AppError}
use multi_tenant_agent_platf.Exec.{Result, ok, err, continue, ◌>>=◌}
use multi_tenant_agent_platf.Exec.Moves.{
  Moves, IsPreorder, Moves-bind, Moves-pure, Moves-raise, Moves-ok_or, Moves-if,
}
use multi_tenant_agent_platf.Db.{Db, Action}
use multi_tenant_agent_platf.Auth.{HeaderMap, TenantContext, authenticate}
use multi_tenant_agent_platf.Auth.Authority.{authenticate-db}
use multi_tenant_agent_platf.Runtime.{Services}
use multi_tenant_agent_platf.Scheduler.{App, AppAction, on_db, reject, schedule_run, tenant_permits}
use multi_tenant_agent_platf.Http.{launch, start_run}
use multi_tenant_agent_platf.Frames.{RunWrites, Writes, get_agent-Moves}
use multi_tenant_agent_platf.Frames.Transactions.{create_or_get_run-Moves}
use multi_tenant_agent_platf.Frames.Runs.{fail_run_before_start-Moves}

-- Every tenant that the headers' credentials belong to has the property.
abbrev pub ActsFor : (ℕ → Type 0) → Services → HeaderMap → Db → Type 0
ActsFor C v headers db =
    (a : ℕ) → (authenticate v.argon2 headers db).0 ≡ ok (record { tenant_id = a }) → C a

abbrev pub AppMoves : (Db → Db → Type 0) → App → App → Type 0
AppMoves R before after = R before.db after.db

pub AppMoves-IsPreorder : {R : Db → Db → Type 0} → IsPreorder R → IsPreorder (AppMoves R)
AppMoves-IsPreorder o = record {
  stay = λ s. o.stay s.db;
  chain = λ s u w f g. o.chain s.db u.db w.db f g;
}

pub on_db-Moves :
    {R : Db → Db → Type 0} {A : Type 0} (m : Action A) → Moves R m → Moves (AppMoves R) (on_db m)
unfolding on_db
on_db-Moves m h = record { at = λ app. h.at app.db }

ruleset rules =
    (AppMoves-IsPreorder, Moves-bind, Moves-pure, Moves-raise, Moves-ok_or, Moves-if, on_db-Moves)

module _ {R : Db → Db → Type 0} (o : IsPreorder R) (a : ℕ) (v : Services) (run_id : ℕ)
    (w : RunWrites R v.engine a run_id) where
  reject-Moves :
      (reason : String) (error : AppError) → Moves (AppMoves R) (reject v a run_id reason error)
  unfolding reject
  reject-Moves reason error = search (rules, fail_run_before_start-Moves o a v run_id w)

  pub schedule_run-Moves : Moves (AppMoves R) (schedule_run v a run_id)
  unfolding schedule_run
  schedule_run-Moves = record {
    at = λ app. elim (Bool-cases (app.global == 0)) [
      | inl full ↦ rw full ((reject-Moves _ _).at app)
      | inr room ↦ rw room (elim (Bool-cases (tenant_permits a app == 0)) [
        | inl full ↦ rw full ((reject-Moves _ _).at _)
        | inr free ↦ rw free (o.stay app.db)
      ])
    ];
  }

  pub launch-Moves : Moves (AppMoves R) (launch v a run_id)
  unfolding launch
  launch-Moves = search (rules, w.event, schedule_run-Moves)

module _ {R : Db → Db → Type 0} (o : IsPreorder R) (C : ℕ → Type 0) (v : Services)
    (headers : HeaderMap) where
  -- What follows the authentication may assume the property of its tenant.
  pub after_authenticate :
      {A : Type 0} (f : TenantContext → AppAction A) (app : App)
      → ActsFor C v headers app.db
      → ((c : TenantContext) → C c.tenant_id → Moves (AppMoves R) (f c))
      → AppMoves R app ((on_db (authenticate v.argon2 headers) >>= f) app).1
  unfolding ◌>>=◌ on_db
  after_authenticate f app acts h =
      go (authenticate v.argon2 headers app.db).0 _ acts (authenticate-db v.argon2 headers app.db)
    where
      go :
          (r : Result AppError TenantContext) (db' : Db)
          → ((a : ℕ) → r ≡ ok (record { tenant_id = a }) → C a)
          → db' ≡ app.db
          → AppMoves R app (continue r f (record app { db = db' })).1
      go (err e) db' n same = rw same (o.stay app.db)
      go (ok c) db' n same = rw same ((h c (n c.tenant_id refl)).at app)

module _ {R : Db → Db → Type 0} (o : IsPreorder R) (C : ℕ → Type 0) (v : Services)
    (w : (a : ℕ) → C a → Writes R v.engine a) (headers : HeaderMap) where
  pub start_run-Moves :
      (agent_id : ℕ) (request : StartRunRequest) (app : App)
      → ActsFor C v headers app.db
      → AppMoves R app (start_run v headers agent_id request app).1
  unfolding start_run
  start_run-Moves agent_id request app acts = after_authenticate o C v headers _ app acts λ c here.
      let launched : (run_id : ℕ) → Moves (AppMoves R) (launch v c.tenant_id run_id) =
        λ run_id. launch-Moves o c.tenant_id v run_id ((w c.tenant_id here).runs run_id) in
      search
        (
          rules,
          get_agent-Moves o,
          create_or_get_run-Moves o v.engine c.tenant_id (w c.tenant_id here).tables,
          launched,
        )
        depth 14
