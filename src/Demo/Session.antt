-- ===== src/Demo/Session.antt =====
-- What the demo client's requests do at the server.
use multi_tenant_agent_platf.Prelude.{
  ◌≡◌, refl, none, String, Bool, true, false, ◌||◌, Option, some, arith,
}
use multi_tenant_agent_platf.Text.{join, contains}
use multi_tenant_agent_platf.Text.Prefixes.{contains-join}
use multi_tenant_agent_platf.Core.{invalid_tool_call_sentinel, CreateApiKeyResponse}
use multi_tenant_agent_platf.Exec.{Result, ok, err}
use multi_tenant_agent_platf.Error.{AppError}
use multi_tenant_agent_platf.Db.{Db}
use multi_tenant_agent_platf.Db.Tools
use multi_tenant_agent_platf.Runtime.{Services, message_requests_invalid_tool_call}
use multi_tenant_agent_platf.Runtime.Loop.{any_message}
use multi_tenant_agent_platf.Http
use multi_tenant_agent_platf.Scheduler.{App}
use multi_tenant_agent_platf.Http.Routes.{Request, Response, serve}
use multi_tenant_agent_platf.Http.Routes
use multi_tenant_agent_platf.Http.Router.{Rejection}
use multi_tenant_agent_platf.Demo.Requests.{content_of, start_request}

-- The flag for an invalid call does at the server what it is meant to: the messages of the request ask
-- for an invalid call exactly if the flag is set or the message already holds the sentinel.
pub start_request-forced :
    (message : String) (force : Bool)
    → any_message message_requests_invalid_tool_call (start_request message force).messages
      ≡ (force || contains invalid_tool_call_sentinel message)
unfolding message_requests_invalid_tool_call start_request content_of contains
start_request-forced message true =
    rw (contains-join invalid_tool_call_sentinel message (join " " invalid_tool_call_sentinel) refl)
      refl
start_request-forced message false = ground arith

-- What the server answers to what reaches it: nothing is served if the request was not built or axum
-- rejected it.
abbrev pub answered :
    Services → Option (Result Rejection Request) → App → Option (Result AppError Response) × App
answered v none app = (none, app)
answered v (some (err rejection)) app = (none, app)
answered v (some (ok request)) app = let (r, app') = serve v request app in (some r, app')

-- The key in an answer, if there is one.
key_in : CreateApiKeyResponse → Option (Result AppError Response) → CreateApiKeyResponse
key_in other (some (ok (Routes.api_key response))) = response
key_in other _ = other
