-- ===== src/Tenancy/Credentials.antt =====
-- No request of a tenant is served without its key (server/src/http.rs, server/src/auth.rs).
use mathlib.Core.Option.{some-injective}
use multi_tenant_agent_platf.Prelude.{◌≡◌, refl, ◌∙◌, ap, Option, none, some, arith}
use multi_tenant_agent_platf.Error.{AppError}
use multi_tenant_agent_platf.Exec.{err, ◌>>=◌}
use multi_tenant_agent_platf.Db.{Db}
use multi_tenant_agent_platf.Auth.{HeaderMap, authenticate}
use multi_tenant_agent_platf.Auth.Authority.{authenticate-db}
use multi_tenant_agent_platf.Runtime.{Services}
use multi_tenant_agent_platf.Scheduler.{App, on_db}
use multi_tenant_agent_platf.Http
use multi_tenant_agent_platf.Http.Routes.{
  Request, healthz, create_tenant, create_api_key, create_tool, list_tools, delete_tool,
  create_agent, get_agent, start_run, get_run, get_trace, serve,
}

-- The headers of a request that acts for a tenant; the others are the administrator's.
abbrev pub credentials : Request → Option HeaderMap
credentials healthz = none
credentials (create_tenant _) = none
credentials (create_api_key _ _) = none
credentials (create_tool headers _) = some headers
credentials (list_tools headers) = some headers
credentials (delete_tool headers _) = some headers
credentials (create_agent headers _) = some headers
credentials (get_agent headers _) = some headers
credentials (start_run headers _ _) = some headers
credentials (get_run headers _) = some headers
credentials (get_trace headers _) = some headers

denied :
    (v : Services) (headers : HeaderMap) (db : Db) (e : AppError)
    → (authenticate v.argon2 headers db).0 ≡ err e
    → authenticate v.argon2 headers db ≡ (err e, db)
denied v headers db e h =
    (ap (λ r. (r, (authenticate v.argon2 headers db).1)) h)
    ∙ ap (λ s. (err e, s)) (authenticate-db v.argon2 headers db)

-- A request that acts for a tenant and whose key is refused gets the error of the authentication, and
-- nothing of the server's state has changed: no table, no permit, no task.
pub serve-denied :
    (v : Services) (request : Request) (headers : HeaderMap) (app : App) (e : AppError)
    → credentials request ≡ some headers
    → (authenticate v.argon2 headers app.db).0 ≡ err e
    → serve v request app ≡ (err e, app)
unfolding serve on_db ◌>>=◌ Http.create_tool Http.list_tools Http.delete_tool Http.create_agent
    Http.get_agent Http.start_run Http.get_run Http.get_trace
serve-denied v healthz headers app e c h = absurd (ground (arith, c))
serve-denied v (create_tenant _) headers app e c h = absurd (ground (arith, c))
serve-denied v (create_api_key _ _) headers app e c h = absurd (ground (arith, c))
serve-denied v (create_tool own _) headers app e c h =
    rw (some-injective own headers c, denied v headers app.db e h) refl
serve-denied v (list_tools own) headers app e c h =
    rw (some-injective own headers c, denied v headers app.db e h) refl
serve-denied v (delete_tool own _) headers app e c h =
    rw (some-injective own headers c, denied v headers app.db e h) refl
serve-denied v (create_agent own _) headers app e c h =
    rw (some-injective own headers c, denied v headers app.db e h) refl
serve-denied v (get_agent own _) headers app e c h =
    rw (some-injective own headers c, denied v headers app.db e h) refl
serve-denied v (start_run own _ _) headers app e c h =
    rw (some-injective own headers c, denied v headers app.db e h) refl
serve-denied v (get_run own _) headers app e c h =
    rw (some-injective own headers c, denied v headers app.db e h) refl
serve-denied v (get_trace own _) headers app e c h =
    rw (some-injective own headers c, denied v headers app.db e h) refl
