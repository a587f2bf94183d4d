-- ===== src/Frames/Requests.antt =====
-- Every handler of server/src/http.rs, and a request of any kind.
use multi_tenant_agent_platf.Prelude.{String, ◌≡◌, ℕ, refl}
use multi_tenant_agent_platf.Error.{AppError}
use multi_tenant_agent_platf.Exec.{Result, ok, err, pure, continue, ◌>>=◌}
use multi_tenant_agent_platf.Exec.Moves.{
  Moves, IsPreorder, Moves-bind, Moves-pure, Moves-raise, Moves-of_result, Moves-ok_or, Moves-if,
}
use multi_tenant_agent_platf.Db.{Db, Action}
use multi_tenant_agent_platf.Auth.{HeaderMap, KeyMaterial, TenantContext, authenticate}
use multi_tenant_agent_platf.Auth.Authority.{authenticate-db}
use multi_tenant_agent_platf.Runtime.{Services}
use multi_tenant_agent_platf.Core.{
  StartRunRequest, CreateTenantRequest, CreateToolRequest, CreateAgentRequest,
}
use multi_tenant_agent_platf.Scheduler.{App, AppAction, on_db}
use multi_tenant_agent_platf.Db.Tenants
use multi_tenant_agent_platf.Http
use multi_tenant_agent_platf.Http.Routes.{
  Request, healthz, create_tenant, create_api_key, create_tool, list_tools, delete_tool,
  create_agent, get_agent, start_run, get_run, get_trace, Response, json, api_key, agent, started,
  run, trace, serve,
}
use multi_tenant_agent_platf.Frames.{TableWrites, Writes, reads}
use multi_tenant_agent_platf.Frames.Transactions.{create_agent-Moves}
use multi_tenant_agent_platf.Frames.Starting.{ActsFor, start_run-Moves}

ruleset rules = (reads, Moves-bind, Moves-pure, Moves-raise, Moves-of_result, Moves-ok_or, Moves-if)

-- The tenant that a request acts for, by its credentials or by asking for a key, has the property.
abbrev pub Within : (ℕ → Type 0) → Services → Request → Db → Type 0
Within C v healthz db = Unit {0}
Within C v (create_tenant _) db = Unit {0}
Within C v (create_api_key _ tenant_id) db = C tenant_id
Within C v (create_tool headers _) db = ActsFor C v headers db
Within C v (list_tools headers) db = ActsFor C v headers db
Within C v (delete_tool headers _) db = ActsFor C v headers db
Within C v (create_agent headers _) db = ActsFor C v headers db
Within C v (get_agent headers _) db = ActsFor C v headers db
Within C v (start_run headers _ _) db = ActsFor C v headers db
Within C v (get_run headers _) db = ActsFor C v headers db
Within C v (get_trace headers _) db = ActsFor C v headers db

module _ {R : Db → Db → Type 0} (o : IsPreorder R) (C : ℕ → Type 0) (v : Services)
    (w : (a : ℕ) → C a → TableWrites R v.engine a)
    (tenant_made : (name : String) → Moves R (Tenants.create_tenant v.engine name)) where
  -- What follows the authentication may assume the property of its tenant.
  after_authenticate :
      {A : Type 0} (headers : HeaderMap) (f : TenantContext → Action A) (db : Db)
      → ActsFor C v headers db
      → ((c : TenantContext) → C c.tenant_id → Moves R (f c))
      → R db ((authenticate v.argon2 headers >>= f) db).1
  unfolding ◌>>=◌
  after_authenticate headers f db acts h =
      rw (authenticate-db v.argon2 headers db) (go (authenticate v.argon2 headers db).0 acts)
    where
      go :
          (r : Result AppError TenantContext)
          → ((a : ℕ) → r ≡ ok (record { tenant_id = a }) → C a)
          → R db (continue r f db).1
      go (err e) n = o.stay db
      go (ok c) n = (h c (n c.tenant_id refl)).at db

  create_tenant-kept : (request : CreateTenantRequest) → Moves R (Http.create_tenant v request)
  unfolding Http.create_tenant
  create_tenant-kept request = search (rules, tenant_made)

  create_api_key-kept :
      (material : KeyMaterial) (a : ℕ) → C a → Moves R (Http.create_api_key v material a)
  unfolding Http.create_api_key
  create_api_key-kept material a here = search (rules, (w a here).api_key)

  create_tool-kept :
      (headers : HeaderMap) (request : CreateToolRequest) (db : Db)
      → ActsFor C v headers db
      → R db (Http.create_tool v headers request db).1
  unfolding Http.create_tool
  create_tool-kept headers request db acts =
      after_authenticate headers _ db acts
        λ c here. search (rules, (w c.tenant_id here).tool) depth 8

  list_tools-kept :
      (headers : HeaderMap) (db : Db)
      → ActsFor C v headers db
      → R db (Http.list_tools v headers db).1
  unfolding Http.list_tools
  list_tools-kept headers db acts = after_authenticate headers _ db acts λ c here. search rules

  delete_tool-kept :
      (headers : HeaderMap) (tool_id : ℕ) (db : Db)
      → ActsFor C v headers db
      → R db (Http.delete_tool v headers tool_id db).1
  unfolding Http.delete_tool
  delete_tool-kept headers tool_id db acts =
      after_authenticate headers _ db acts
        λ c here. search (rules, (w c.tenant_id here).tool_deletion)

  create_agent-kept :
      (headers : HeaderMap) (request : CreateAgentRequest) (db : Db)
      → ActsFor C v headers db
      → R db (Http.create_agent v headers request db).1
  unfolding Http.create_agent
  create_agent-kept headers request db acts = after_authenticate headers _ db acts λ c here.
      search (rules, create_agent-Moves o v.engine c.tenant_id (w c.tenant_id here)) depth 8

  get_agent-kept :
      (headers : HeaderMap) (agent_id : ℕ) (db : Db)
      → ActsFor C v headers db
      → R db (Http.get_agent v headers agent_id db).1
  unfolding Http.get_agent
  get_agent-kept headers agent_id db acts =
      after_authenticate headers _ db acts λ c here. search rules depth 8

  get_run-kept :
      (headers : HeaderMap) (run_id : ℕ) (db : Db)
      → ActsFor C v headers db
      → R db (Http.get_run v headers run_id db).1
  unfolding Http.get_run
  get_run-kept headers run_id db acts =
      after_authenticate headers _ db acts λ c here. search rules depth 8

  get_trace-kept :
      (headers : HeaderMap) (run_id : ℕ) (db : Db)
      → ActsFor C v headers db
      → R db (Http.get_trace v headers run_id db).1
  unfolding Http.get_trace
  get_trace-kept headers run_id db acts =
      after_authenticate headers _ db acts λ c here. search rules

  -- The response is built from the handler's result.
  respond_app :
      {A : Type 0} (m : AppAction A) (f : A → Response) (app : App)
      → R app.db (m app).1.db
      → R app.db ((m >>= λ r. pure (f r)) app).1.db
  unfolding ◌>>=◌
  respond_app {A} m f app h = go (m app).0 (m app).1 h
    where
      go :
          (r : Result AppError A) (app' : App)
          → R app.db app'.db
          → R app.db (continue r (λ x. pure (f x)) app').1.db
      go (ok x) app' k = k
      go (err e) app' k = k

  respond :
      {A : Type 0} (m : Action A) (f : A → Response) (app : App)
      → R app.db (m app.db).1
      → R app.db ((on_db m >>= λ r. pure (f r)) app).1.db
  unfolding on_db
  respond m f app h = respond_app (on_db m) f app h

  -- Whatever a request's result, the database has moved along the relation, if it does so where a run is
  -- started.
  pub serve-moves :
      (request : Request) (app : App)
      → Within C v request app.db
      → ((headers : HeaderMap) (agent_id : ℕ) (r : StartRunRequest)
          → ActsFor C v headers app.db
          → R app.db (Http.start_run v headers agent_id r app).1.db)
      → R app.db (serve v request app).1.db
  unfolding serve pure
  serve-moves healthz app h starting = o.stay app.db
  serve-moves (create_tenant request) app h starting =
      respond _ Response.tenant app ((create_tenant-kept request).at app.db)
  serve-moves (create_api_key material a) app h starting =
      respond _ api_key app ((create_api_key-kept material a h).at app.db)
  serve-moves (create_tool headers request) app h starting =
      respond _ Response.tool app (create_tool-kept headers request app.db h)
  serve-moves (list_tools headers) app h starting =
      respond _ Response.tools app (list_tools-kept headers app.db h)
  serve-moves (delete_tool headers tool_id) app h starting =
      respond _ json app (delete_tool-kept headers tool_id app.db h)
  serve-moves (create_agent headers request) app h starting =
      respond _ agent app (create_agent-kept headers request app.db h)
  serve-moves (get_agent headers agent_id) app h starting =
      respond _ agent app (get_agent-kept headers agent_id app.db h)
  serve-moves (start_run headers agent_id request) app h starting =
      respond_app _ started app (starting headers agent_id request h)
  serve-moves (get_run headers run_id) app h starting =
      respond _ run app (get_run-kept headers run_id app.db h)
  serve-moves (get_trace headers run_id) app h starting =
      respond _ trace app (get_trace-kept headers run_id app.db h)

module _ {R : Db → Db → Type 0} (o : IsPreorder R) (C : ℕ → Type 0) (v : Services)
    (w : (a : ℕ) → C a → Writes R v.engine a)
    (tenant_made : (name : String) → Moves R (Tenants.create_tenant v.engine name)) where
  pub serve-Moves :
      (request : Request) (app : App)
      → Within C v request app.db
      → R app.db (serve v request app).1.db
  serve-Moves request app h =
      serve-moves o C v (λ a here. (w a here).tables) tenant_made request app h
        λ headers agent_id r. start_run-Moves o C v w headers agent_id r app

-- A property that every tenant has is no restriction on the request.
pub all-Within :
    (C : ℕ → Type 0) (v : Services) (r : Request) (db : Db) → ((a : ℕ) → C a) → Within C v r db
all-Within C v healthz db all = tt
all-Within C v (create_tenant _) db all = tt
all-Within C v (create_api_key _ tenant_id) db all = all tenant_id
all-Within C v (create_tool _ _) db all = λ a _. all a
all-Within C v (list_tools _) db all = λ a _. all a
all-Within C v (delete_tool _ _) db all = λ a _. all a
all-Within C v (create_agent _ _) db all = λ a _. all a
all-Within C v (get_agent _ _) db all = λ a _. all a
all-Within C v (start_run _ _ _) db all = λ a _. all a
all-Within C v (get_run _ _) db all = λ a _. all a
all-Within C v (get_trace _ _) db all = λ a _. all a
