-- ===== src/Demo/Client.antt =====
-- demo/src/client.rs. What the client does to the world outside goes through a host, and reqwest and
-- serde are parameters; of an error its kind is kept, with what its message names.
use multi_tenant_agent_platf.Prelude.{
  ℕ, ◌+◌, ◌≤◌, ◌≡◌, String, Bool, true, not, ◌&&◌, Option, none, some, leb, ◌==◌, if◌then◌else◌,
}
use Prim.Native.Char.{code}
use multi_tenant_agent_platf.Text.{join, is_empty_text}
use multi_tenant_agent_platf.Core.{
  CreateTenantRequest, CreateToolRequest, CreateAgentRequest, StartRunRequest,
}
use multi_tenant_agent_platf.Http.Router.{Method}
use multi_tenant_agent_platf.Auth.{HeaderValue, to_str}
use multi_tenant_agent_platf.Exec.{Exec, err, raise, ok_or, ◌>>=◌}

-- What `.json(body)` has put into a request: the value whose JSON text is the body.
pub data Body : Type 0 where
  no_body : Body
  empty_object : Body
  tenant : CreateTenantRequest → Body
  tool : CreateToolRequest → Body
  agent : CreateAgentRequest → Body
  run : StartRunRequest → Body

pub record HttpRequest : Type 0 where
  pub method : Method
  pub url : String
  pub authorization : Option HeaderValue
  pub idempotency_key : Option HeaderValue
  pub body : Body

-- A response, with its text if that could be read.
pub record HttpResponse : Type 0 where
  pub status : ℕ
  pub text : Option String

-- The characters of the text are visible ASCII, or blanks.
unfoldable pub is_visible : String → Bool
is_visible String.[] = true
is_visible (String.◌∷◌ c s) = leb 32 (code c) && leb (code c) 126 && is_visible s

-- The value of a header, if the text may be one. A text beyond ASCII may be one that is read as none.
pub record Reqwest : Type 0 where
  pub header_value : String → Option HeaderValue
  pub header_value-to_str :
      (s : String) (value : HeaderValue)
      → is_visible s ≡ true
      → header_value s ≡ some value
      → to_str value ≡ some s

-- The network, the files, the clock in nanoseconds, and standard output.
pub record Host (W : Type 0) : Type 0 where
  pub send : HttpRequest → W → Option HttpResponse × W
  pub read_to_string : String → W → Option String × W
  pub println : String → W → W
  pub now : W → ℕ
  pub sleep : ℕ → W → W
  pub send-now : (request : HttpRequest) (w : W) → now w ≤ now (send request w).1
  pub sleep-now : (duration : ℕ) (w : W) → now w + duration ≤ now (sleep duration w)

-- serde_json on a type.
pub record Format (T : Type 0) : Type 0 where
  pub from_str : String → Option T
  pub to_string_pretty : T → Option String

pub record ApiClient : Type 0 where
  pub base_url : String

-- trim_end_matches('/')
unfoldable pub trim_slashes : String → String
trim_slashes String.[] = ""
trim_slashes (String.◌∷◌ c s) =
    let rest = trim_slashes s in
    if code c == b'/' && is_empty_text rest then "" else String.◌∷◌ c rest

unfoldable pub new : String → ApiClient
unfolding trim_slashes
new base_url = record { base_url = trim_slashes base_url }

-- What the client reports: a request that could not be made or sent, a response that could not be
-- read, a status that tells of no success, a text that is not the JSON expected, a run that did not
-- end in time, a file that could not be read or holds no JSON, and a value that has no text.
pub data ClientError : Type 0 where
  request_failed : String → ClientError
  unreadable_response : ClientError
  refused : ℕ → String → ClientError
  invalid_json : String → ClientError
  timed_out : ℕ → ClientError
  failed_to_read : String → ClientError
  invalid_file : String → ClientError
  unprintable : ClientError

-- A header that was asked for: none where it was not, and an error where its text may not be one.
abbrev pub header_of : Option HeaderValue → Option (Option HeaderValue)
header_of none = none
header_of (some value) = some (some value)

abbrev pub optional_header :
    (String → Option HeaderValue) → Option String → Option (Option HeaderValue)
optional_header value none = some none
optional_header value (some s) = header_of (value s)

abbrev pub with_headers :
    HttpRequest → Option (Option HeaderValue) → Option (Option HeaderValue) → Option HttpRequest
with_headers request none idempotency_key = none
with_headers request (some authorization) none = none
with_headers request (some authorization) (some idempotency_key) =
    some (record request { authorization = authorization; idempotency_key = idempotency_key })

-- `self.http.request(method, &url)` with its headers and its body
unfoldable pub built :
    Reqwest
    → ApiClient
    → Method
    → String
    → Option String
    → Body
    → Option String
    → Option HttpRequest
built q client method path api_key body idempotency_key =
    with_headers
      (record {
        method = method;
        url = join client.base_url path;
        authorization = none;
        idempotency_key = none;
        body = body;
      })
      (optional_header (λ key. q.header_value (join "Bearer " key)) api_key)
      (optional_header q.header_value idempotency_key)

-- status.is_success()
abbrev pub is_success : ℕ → Bool
is_success status = leb 200 status && leb status 299

module _ {W T : Type 0} (q : Reqwest) (h : Host W) (format : Format T) where
  -- The request is sent if it could be built.
  abbrev pub sent : String → Option HttpRequest → Exec W ClientError HttpResponse
  sent url none w = (err (request_failed url), w)
  sent url (some request) w =
      let (response, w') = h.send request w in ok_or response (request_failed url) w'

  -- From the response to the value.
  unfoldable pub received : String → HttpResponse → Exec W ClientError T
  received url response = do
    text ← ok_or response.text unreadable_response
    if not (is_success response.status)
        then raise (refused response.status text)
        else ok_or (format.from_str text) (invalid_json url)

  unfoldable pub request :
      ApiClient → Method → String → Option String → Body → Option String → Exec W ClientError T
  unfolding built received
  request client method path api_key body idempotency_key = do
    response ←
        sent (join client.base_url path) (built q client method path api_key body idempotency_key)
    received (join client.base_url path) response
