-- ===== src/Demo/Agreement.antt =====
-- The requests of the demo client and the routes of the server fit together.
use multi_tenant_agent_platf.Prelude.{
  ℕ, ◌≡◌, refl, String, Bool, Option, none, some, List, [], ◌∷◌, ℤ,
}
use multi_tenant_agent_platf.Text.{join}
use multi_tenant_agent_platf.Json.{Value}
use multi_tenant_agent_platf.Exec.{Result, ok}
use multi_tenant_agent_platf.Auth.{HeaderValue, HeaderMap, KeyMaterial}
use multi_tenant_agent_platf.Runtime.{Serde}
use multi_tenant_agent_platf.Http.Routes.{Request}
use multi_tenant_agent_platf.Http.Routes
use multi_tenant_agent_platf.Http.Router.{Axum, Rejection, receive, extract}
use multi_tenant_agent_platf.Demo.Client.{Body, Reqwest, ApiClient, built, optional_header}
use multi_tenant_agent_platf.Demo.Requests.{
  Call, get_call, post_call, delete_call, create_tenant_call, create_api_key_call, create_tool_call,
  list_tools_call, delete_tool_call, create_agent_call, get_agent_call, start_request,
  start_run_call, get_run_call, get_trace_call,
}
use multi_tenant_agent_platf.Demo.Delivery.{Wire, delivered}
use multi_tenant_agent_platf.Demo.Routing.{find_route-build_app, find_with_id, find_below_id}

module _ {s : Serde} {x : Axum Body} (wire : Wire s x) where
  module _ (q : Reqwest) (material : KeyMaterial) (client : ApiClient) where
    delivered-create_tenant_call :
        (name : String)
        → delivered q x material client (create_tenant_call name)
          ≡ some (ok (Routes.create_tenant (record { name = name })))
    unfolding delivered built receive extract create_tenant_call post_call
    delivered-create_tenant_call name =
        rw
          (
            find_route-build_app wire "/tenants" ("tenants" ∷ []) refl refl,
            wire.tenant-json (record { name = name }),
          )
          refl

    pub delivered-create_api_key_call :
        (tenant_id : ℕ)
        → delivered q x material client (create_api_key_call s tenant_id)
          ≡ some (ok (Routes.create_api_key material tenant_id))
    unfolding delivered built receive extract create_api_key_call post_call
    delivered-create_api_key_call tenant_id =
        rw
          (
            find_below_id wire "tenants" tenant_id "api-keys" refl refl,
            wire.uuid-uuid_text tenant_id,
          )
          refl

    module _ (api_key : String) (authorization : HeaderValue)
        (key_header : q.header_value (join "Bearer " api_key) ≡ some authorization) where
      -- The headers of a request with the key alone.
      abbrev pub keyed : HeaderMap
      keyed = record { authorization = some authorization; idempotency_key = none }

      delivered-create_tool_call :
          (name : String) (input_schema mock_handler : Value)
          → delivered q x material client (create_tool_call api_key name input_schema mock_handler)
            ≡ some (
                ok (
                  Routes.create_tool keyed (record {
                    name = name;
                    input_schema = input_schema;
                    mock_handler = mock_handler;
                  })))
      unfolding delivered built receive extract create_tool_call post_call
      delivered-create_tool_call name input_schema mock_handler =
          rw
            (
              key_header,
              find_route-build_app wire "/tools" ("tools" ∷ []) refl refl,
              wire.tool-json _,
            )
            refl

      pub delivered-list_tools_call :
          delivered q x material client (list_tools_call api_key)
          ≡ some (ok (Routes.list_tools keyed))
      unfolding delivered built receive extract list_tools_call get_call
      delivered-list_tools_call =
          rw (key_header, find_route-build_app wire "/tools" ("tools" ∷ []) refl refl) refl

      delivered-delete_tool_call :
          (tool_id : ℕ)
          → delivered q x material client (delete_tool_call s api_key tool_id)
            ≡ some (ok (Routes.delete_tool keyed tool_id))
      unfolding delivered built receive extract delete_tool_call delete_call
      delivered-delete_tool_call tool_id =
          rw (key_header, find_with_id wire "tools" tool_id refl, wire.uuid-uuid_text tool_id) refl

      delivered-get_agent_call :
          (agent_id : ℕ)
          → delivered q x material client (get_agent_call s api_key agent_id)
            ≡ some (ok (Routes.get_agent keyed agent_id))
      unfolding delivered built receive extract get_agent_call get_call
      delivered-get_agent_call agent_id =
          rw (key_header, find_with_id wire "agents" agent_id refl, wire.uuid-uuid_text agent_id)
            refl

      delivered-get_run_call :
          (run_id : ℕ)
          → delivered q x material client (get_run_call s api_key run_id)
            ≡ some (ok (Routes.get_run keyed run_id))
      unfolding delivered built receive extract get_run_call get_call
      delivered-get_run_call run_id =
          rw (key_header, find_with_id wire "runs" run_id refl, wire.uuid-uuid_text run_id) refl

      delivered-get_trace_call :
          (run_id : ℕ)
          → delivered q x material client (get_trace_call s api_key run_id)
            ≡ some (ok (Routes.get_trace keyed run_id))
      unfolding delivered built receive extract get_trace_call get_call
      delivered-get_trace_call run_id =
          rw
            (
              key_header,
              find_below_id wire "runs" run_id "trace" refl refl,
              wire.uuid-uuid_text run_id,
            )
            refl

      delivered-create_agent_call :
          (name : Option String) (system_prompt : String) (tool_ids : List ℕ) (max_iterations : ℤ)
          → delivered q x material client
              (create_agent_call api_key name system_prompt tool_ids max_iterations)
            ≡ some (
                ok (
                  Routes.create_agent keyed (record {
                    name = name;
                    system_prompt = system_prompt;
                    tool_ids = tool_ids;
                    max_iterations = max_iterations;
                  })))
      unfolding delivered built receive extract create_agent_call post_call
      delivered-create_agent_call name system_prompt tool_ids max_iterations =
          rw
            (
              key_header,
              find_route-build_app wire "/agents" ("agents" ∷ []) refl refl,
              wire.agent-json _,
            )
            refl

      delivered-start_run_call :
          (agent_id : ℕ) (message : String) (idempotency_key : Option String) (force : Bool)
          (idempotency_header : Option HeaderValue)
          → optional_header q.header_value idempotency_key ≡ some idempotency_header
          → delivered q x material client
              (start_run_call s api_key agent_id message idempotency_key force)
            ≡ some (
                ok (
                  Routes.start_run
                    (record {
                      authorization = some authorization;
                      idempotency_key = idempotency_header;
                    })
                    agent_id
                    (start_request message force)))
      unfolding delivered built receive extract start_run_call post_call
      delivered-start_run_call agent_id message idempotency_key force idempotency_header e =
          rw
            (
              key_header,
              e,
              find_below_id wire "agents" agent_id "run" refl refl,
              wire.uuid-uuid_text agent_id,
              wire.run-json (start_request message force),
            )
            refl

-- Every request that the demo client makes reaches the handler it is meant for, with the identifier,
-- the headers and the body that the command gave; this takes the text of a UUID to be read back as that
-- UUID, and JSON as the value it was written from. The headers are those that reqwest makes of the API
-- key and of the idempotency key, and the two requests of an administrator carry none.
pub delivered-calls :
    (s : Serde) (x : Axum Body) (wire : Wire s x) (q : Reqwest) (material : KeyMaterial)
    (client : ApiClient) (api_key : String) (idempotency_key : Option String)
    (authorization : HeaderValue) (idempotency_header : Option HeaderValue) (id : ℕ) (name : String)
    (input_schema mock_handler : Value) (agent_name : Option String) (tool_ids : List ℕ)
    (max_iterations : ℤ) (force : Bool)
    → q.header_value (join "Bearer " api_key) ≡ some authorization
    → optional_header q.header_value idempotency_key ≡ some idempotency_header
    → let deliver : Call → Option (Result Rejection Request) = delivered q x material client in
      let keyed : HeaderMap = record {
        authorization = some authorization;
        idempotency_key = none;
      } in
      (deliver (create_tenant_call name)
        ≡ some (ok (Routes.create_tenant (record { name = name }))))
      × (deliver (create_api_key_call s id) ≡ some (ok (Routes.create_api_key material id)))
      × (deliver (create_tool_call api_key name input_schema mock_handler)
          ≡ some (
              ok (
                Routes.create_tool keyed (record {
                  name = name;
                  input_schema = input_schema;
                  mock_handler = mock_handler;
                }))))
      × (deliver (list_tools_call api_key) ≡ some (ok (Routes.list_tools keyed)))
      × (deliver (delete_tool_call s api_key id) ≡ some (ok (Routes.delete_tool keyed id)))
      × (deliver (create_agent_call api_key agent_name name tool_ids max_iterations)
          ≡ some (
              ok (
                Routes.create_agent keyed (record {
                  name = agent_name;
                  system_prompt = name;
                  tool_ids = tool_ids;
                  max_iterations = max_iterations;
                }))))
      × (deliver (get_agent_call s api_key id) ≡ some (ok (Routes.get_agent keyed id)))
      × (deliver (start_run_call s api_key id name idempotency_key force)
          ≡ some (
              ok (
                Routes.start_run
                  (record {
                    authorization = some authorization;
                    idempotency_key = idempotency_header;
                  })
                  id
                  (start_request name force))))
      × (deliver (get_run_call s api_key id) ≡ some (ok (Routes.get_run keyed id)))
      × (deliver (get_trace_call s api_key id) ≡ some (ok (Routes.get_trace keyed id)))
delivered-calls s x wire q material client api_key idempotency_key authorization idempotency_header
      id name input_schema mock_handler agent_name tool_ids max_iterations force key_header e =
    (
      delivered-create_tenant_call wire q material client name,
      delivered-create_api_key_call wire q material client id,
      delivered-create_tool_call wire q material client api_key authorization key_header name
          input_schema mock_handler,
      delivered-list_tools_call wire q material client api_key authorization key_header,
      delivered-delete_tool_call wire q material client api_key authorization key_header id,
      delivered-create_agent_call wire q material client api_key authorization key_header agent_name
          name tool_ids max_iterations,
      delivered-get_agent_call wire q material client api_key authorization key_header id,
      delivered-start_run_call wire q material client api_key authorization key_header id name
          idempotency_key force idempotency_header e,
      delivered-get_run_call wire q material client api_key authorization key_header id,
      delivered-get_trace_call wire q material client api_key authorization key_header id,
    )
