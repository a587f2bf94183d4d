-- ===== src/Http/Router.antt =====
-- The table of routes in server/src/app.rs, and how a request finds its handler and the handler its
-- arguments. Matching a path, and reading a UUID or a body, is done by axum, which is a parameter.
use multi_tenant_agent_platf.Prelude.{
  ℕ, String, Bool, true, false, Option, none, some, List, [], ◌∷◌,
}
use multi_tenant_agent_platf.Core.{
  CreateTenantRequest, CreateToolRequest, CreateAgentRequest, StartRunRequest,
}
use multi_tenant_agent_platf.Exec.{Result, ok, err}
use multi_tenant_agent_platf.Auth.{HeaderMap, KeyMaterial}
use multi_tenant_agent_platf.Http.Routes.{Request}
use multi_tenant_agent_platf.Http.Routes

pub data Method : Type 0 where
  get post delete other_method : Method

abbrev same_method : Method → Method → Bool
same_method get get = true
same_method post post = true
same_method delete delete = true
same_method other_method other_method = true
same_method _ _ = false

-- A request as it comes in: its body is of a type that axum reads.
pub record Incoming (B : Type 0) : Type 0 where
  pub method : Method
  pub path : String
  pub headers : HeaderMap
  pub body : B

-- What a template such as "/tools/{tool_id}" captures from a path, if it matches, and what the
-- extractors Path<Uuid> and Json make of a segment and of a body.
pub record Axum (B : Type 0) : Type 0 where
  pub captures : String → String → Option (List String)
  pub uuid : String → Option ℕ
  pub tenant : B → Option CreateTenantRequest
  pub tool : B → Option CreateToolRequest
  pub agent : B → Option CreateAgentRequest
  pub run : B → Option StartRunRequest

-- The answers of axum itself: no route has the path, the route has not the method, a segment is no
-- UUID, the body is not the JSON expected.
pub data Rejection : Type 0 where
  no_route method_not_allowed bad_path bad_body : Rejection

-- The handlers of crate::http.
pub data Handler : Type 0 where
  healthz create_tenant create_api_key create_tool list_tools delete_tool create_agent get_agent
        start_run get_run get_trace :
      Handler

abbrev pub Methods : Type 0
Methods = List (Method × Handler)

-- The table of `build_app`.
unfoldable pub build_app : List (String × Methods)
build_app =
    ("/healthz", (get, healthz) ∷ [])
    ∷ ("/tenants", (post, create_tenant) ∷ [])
    ∷ ("/tenants/{tenant_id}/api-keys", (post, create_api_key) ∷ [])
    ∷ ("/tools", (post, create_tool) ∷ (get, list_tools) ∷ [])
    ∷ ("/tools/{tool_id}", (delete, delete_tool) ∷ [])
    ∷ ("/agents", (post, create_agent) ∷ [])
    ∷ ("/agents/{agent_id}", (get, get_agent) ∷ [])
    ∷ ("/agents/{agent_id}/run", (post, start_run) ∷ [])
    ∷ ("/runs/{run_id}", (get, get_run) ∷ [])
    ∷ ("/runs/{run_id}/trace", (get, get_trace) ∷ [])
    ∷ []

abbrev pub or_else : {A : Type 0} → Option A → Option A → Option A
or_else none o = o
or_else (some a) o = some a

abbrev pub paired : Methods → Option (List String) → Option (Methods × List String)
paired methods none = none
paired methods (some segments) = some (methods, segments)

abbrev find_handler : Method → Methods → Option Handler
find_handler method [] = none
find_handler method ((m, handler) ∷ methods) =
    or_else (only (same_method m method) handler) (find_handler method methods)
  where
    only : Bool → Handler → Option Handler
    only true handler = some handler
    only false handler = none

module _ {B : Type 0} (axum : Axum B) where
  abbrev pub find_route : List (String × Methods) → String → Option (Methods × List String)
  find_route [] path = none
  find_route ((template, methods) ∷ routes) path =
      or_else (paired methods (axum.captures template path)) (find_route routes path)

  -- The one argument of Path<Uuid>.
  abbrev id_of : List String → Option ℕ
  id_of [] = none
  id_of (segment ∷ []) = axum.uuid segment
  id_of (segment ∷ other ∷ segments) = none

  abbrev with_id : (ℕ → Request) → Option ℕ → Result Rejection Request
  with_id handler none = err bad_path
  with_id handler (some id) = ok (handler id)

  abbrev with_body : {A : Type 0} → (A → Request) → Option A → Result Rejection Request
  with_body handler none = err bad_body
  with_body handler (some request) = ok (handler request)

  abbrev with_id_and_body :
      {A : Type 0} → (ℕ → A → Request) → Option ℕ → Option A → Result Rejection Request
  with_id_and_body handler none body = err bad_path
  with_id_and_body handler (some id) body = with_body (handler id) body

  -- The arguments that the handler takes, by its signature.
  unfoldable pub extract :
      KeyMaterial → Handler → List String → Incoming B → Result Rejection Request
  extract material healthz segments x = ok Routes.healthz
  extract material create_tenant segments x = with_body Routes.create_tenant (axum.tenant x.body)
  extract material create_api_key segments x =
      with_id (Routes.create_api_key material) (id_of segments)
  extract material create_tool segments x =
      with_body (Routes.create_tool x.headers) (axum.tool x.body)
  extract material list_tools segments x = ok (Routes.list_tools x.headers)
  extract material delete_tool segments x = with_id (Routes.delete_tool x.headers) (id_of segments)
  extract material create_agent segments x =
      with_body (Routes.create_agent x.headers) (axum.agent x.body)
  extract material get_agent segments x = with_id (Routes.get_agent x.headers) (id_of segments)
  extract material start_run segments x =
      with_id_and_body (Routes.start_run x.headers) (id_of segments) (axum.run x.body)
  extract material get_run segments x = with_id (Routes.get_run x.headers) (id_of segments)
  extract material get_trace segments x = with_id (Routes.get_trace x.headers) (id_of segments)

  abbrev handled :
      KeyMaterial → Incoming B → List String → Option Handler → Result Rejection Request
  handled material x segments none = err method_not_allowed
  handled material x segments (some handler) = extract material handler segments x

  abbrev routed :
      KeyMaterial → Incoming B → Option (Methods × List String) → Result Rejection Request
  routed material x none = err no_route
  routed material x (some (methods, segments)) =
      handled material x segments (find_handler x.method methods)

  -- From what comes in to the handler's call. The material is for a key, if one is to be generated.
  unfoldable pub receive : KeyMaterial → Incoming B → Result Rejection Request
  unfolding extract build_app
  receive material x = routed material x (find_route build_app x.path)
