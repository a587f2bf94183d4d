-- ===== src/Demo/Delivery.antt =====
-- From the demo client to the server: what connects the two, and the requests that arrive.
use multi_tenant_agent_platf.Prelude.{
  ℕ, ◌≡◌, String, Bool, true, not, ◌&&◌, Option, none, some, List, [], ◌∷◌, ◌==◌, str_eq,
  if◌then◌else◌,
}
use Prim.Native.Char.{code}
use multi_tenant_agent_platf.Text.{join, is_empty_text}
use multi_tenant_agent_platf.Core.{
  CreateTenantRequest, CreateToolRequest, CreateAgentRequest, StartRunRequest,
}
use multi_tenant_agent_platf.Exec.{Result}
use multi_tenant_agent_platf.Auth.{KeyMaterial}
use multi_tenant_agent_platf.Runtime.{Serde}
use multi_tenant_agent_platf.Http.Routes.{Request}
use multi_tenant_agent_platf.Http.Router.{Axum, Rejection, Incoming, receive}
use multi_tenant_agent_platf.Demo.Client.{
  Body, HttpRequest, Reqwest, ApiClient, built, optional_header,
}
use multi_tenant_agent_platf.Demo.Client
use multi_tenant_agent_platf.Demo.Requests.{Call}

-- A piece of a template: a text that stands for itself, or a name in braces.
pub data Segment : Type 0 where
  literal : String → Segment
  parameter : String → Segment

abbrev pub lacks : ℕ → String → Bool
lacks n String.[] = true
lacks n (String.◌∷◌ c s) = not (code c == n) && lacks n s

-- A text that may stand between two slashes.
abbrev pub plain : String → Bool
plain s = not (is_empty_text s) && lacks b'/' s

-- A text that is no parameter or catch-all either.
abbrev pub ordinary : String → Bool
ordinary s = plain s && lacks b'{' s && lacks b'}' s && lacks b'*' s

abbrev pub all_plain : List String → Bool
all_plain [] = true
all_plain (s ∷ ss) = plain s && all_plain ss

abbrev pub all_ordinary : List Segment → Bool
all_ordinary [] = true
all_ordinary (literal s ∷ ts) = ordinary s && all_ordinary ts
all_ordinary (parameter s ∷ ts) = ordinary s && all_ordinary ts

abbrev pub path_text : List String → String
path_text [] = ""
path_text (s ∷ []) = join "/" s
path_text (s ∷ t ∷ ss) = join "/" (join s (path_text (t ∷ ss)))

abbrev pub segment_text : Segment → String
segment_text (literal s) = s
segment_text (parameter s) = join "{" (join s "}")

abbrev pub template_text : List Segment → List String
template_text [] = []
template_text (t ∷ ts) = segment_text t ∷ template_text ts

abbrev pub captured : String → Option (List String) → Option (List String)
captured s none = none
captured s (some ss) = some (s ∷ ss)

-- A parameter captures one segment, whatever it is.
abbrev pub match_segments : List Segment → List String → Option (List String)
match_segments [] [] = some []
match_segments [] (s ∷ ss) = none
match_segments (t ∷ ts) [] = none
match_segments (literal t ∷ ts) (s ∷ ss) =
    let rest = match_segments ts ss in if str_eq t s then rest else none
match_segments (parameter t ∷ ts) (s ∷ ss) = captured s (match_segments ts ss)

-- The server reads what the client writes: UUIDs, JSON of the shared types, and paths by segments.
pub record Wire (s : Serde) (x : Axum Body) : Type 0 where
  pub captures-path :
      (ts : List Segment) (ss : List String)
      → all_ordinary ts ≡ true
      → all_plain ss ≡ true
      → x.captures (path_text (template_text ts)) (path_text ss) ≡ match_segments ts ss
  pub uuid_text-plain : (id : ℕ) → plain (s.uuid_text id) ≡ true
  pub uuid-uuid_text : (id : ℕ) → x.uuid (s.uuid_text id) ≡ some id
  pub tenant-json : (r : CreateTenantRequest) → x.tenant (Client.tenant r) ≡ some r
  pub tool-json : (r : CreateToolRequest) → x.tool (Client.tool r) ≡ some r
  pub agent-json : (r : CreateAgentRequest) → x.agent (Client.agent r) ≡ some r
  pub run-json : (r : StartRunRequest) → x.run (Client.run r) ≡ some r

-- A request as the server gets it, its URL having led to the path.
abbrev pub incoming : String → HttpRequest → Incoming Body
incoming path request = record {
  method = request.method;
  path = path;
  headers = record {
    authorization = request.authorization;
    idempotency_key = request.idempotency_key;
  };
  body = request.body;
}

abbrev pub received :
    Axum Body → KeyMaterial → String → Option HttpRequest → Option (Result Rejection Request)
received x material path none = none
received x material path (some request) = some (receive x material (incoming path request))

-- What the server makes of a call of the client.
unfoldable pub delivered :
    Reqwest → Axum Body → KeyMaterial → ApiClient → Call → Option (Result Rejection Request)
unfolding built receive
delivered q x material client call =
    received x material call.path
      (built q client call.method call.path call.api_key call.body call.idempotency_key)
