-- ===== src/Samples/Wire.antt =====
-- A server that reads what the client writes: paths are split at slashes, a template's segment in braces
-- captures, and the text of a UUID is in unary.
use text.Mathlib.TextLemmas.{nil-append, cons-append}
use Prim.Native.Char.{Char, code}
use multi_tenant_agent_platf.Prelude.{
  ℕ, zero, suc, ◌≡◌, refl, ap, ◌∙◌, String, true, ◌&&◌, Option, none, some, List, [], ◌∷◌, map,
  ◌==◌, if◌then◌else◌, arith, inl, inr, Bool-cases,
}
use mathlib.Core.Option
use multi_tenant_agent_platf.Text.{join}
use multi_tenant_agent_platf.Core.{
  CreateTenantRequest, CreateToolRequest, CreateAgentRequest, StartRunRequest,
}
use multi_tenant_agent_platf.Runtime.{Serde}
use multi_tenant_agent_platf.Http.Router.{Axum}
use multi_tenant_agent_platf.Demo.Client.{Body}
use multi_tenant_agent_platf.Demo.Client
use multi_tenant_agent_platf.Demo.Delivery.{
  Segment, literal, parameter, lacks, plain, ordinary, all_plain, all_ordinary, path_text,
  template_text, match_segments, Wire,
}
use multi_tenant_agent_platf.Samples.{serde}

abbrev push : Char → List String → List String
push c [] = String.◌∷◌ c "" ∷ []
push c (s ∷ ss) = String.◌∷◌ c s ∷ ss

abbrev parts : String → List String
parts String.[] = "" ∷ []
parts (String.◌∷◌ c s) = let rest = parts s in if code c == b'/' then "" ∷ rest else push c rest

abbrev split_path : String → List String
split_path String.[] = []
split_path (String.◌∷◌ c s) = parts s

parts-lacks : (s : String) → lacks b'/' s ≡ true → parts s ≡ s ∷ []
parts-lacks String.[] h = refl
parts-lacks (String.◌∷◌ c s) h = elim (Bool-cases (code c == b'/')) [
  | inl e ↦ absurd (ground arith)
  | inr e ↦ rw (e, parts-lacks s (ground arith)) refl
]

parts-join :
    (c : Char) (s r : String)
    → code c ≡ b'/'
    → lacks b'/' s ≡ true
    → parts (join s (String.◌∷◌ c r)) ≡ s ∷ parts r
parts-join c String.[] r slash h = rw nil-append (ground arith)
parts-join c (String.◌∷◌ d s) r slash h = elim (Bool-cases (code d == b'/')) [
  | inl e ↦ absurd (ground arith)
  | inr e ↦ rw (cons-append, e, parts-join c s r slash (ground arith)) refl
]

-- What comes after the first slash of a path.
abbrev body : List String → String
body [] = ""
body (s ∷ []) = s
body (s ∷ t ∷ ss) = join s (String.◌∷◌ "/" (body (t ∷ ss)))

slash-cons : (s : String) → join "/" s ≡ String.◌∷◌ "/" s
slash-cons s = cons-append "/" "" s ∙ ap (String.◌∷◌ "/") (nil-append s)

path_text-body :
    (s : String) (ss : List String) → path_text (s ∷ ss) ≡ String.◌∷◌ "/" (body (s ∷ ss))
path_text-body s [] = slash-cons s
path_text-body s (t ∷ ss) = rw (path_text-body t ss) (slash-cons _)

parts-body :
    (s : String) (ss : List String) → all_plain (s ∷ ss) ≡ true → parts (body (s ∷ ss)) ≡ s ∷ ss
parts-body s [] h = parts-lacks s (ground arith)
parts-body s (t ∷ ss) h =
    parts-join "/" s _ refl (ground arith) ∙ ap (λ r. s ∷ r) (parts-body t ss (ground arith))

split_path-path_text : (ss : List String) → all_plain ss ≡ true → split_path (path_text ss) ≡ ss
split_path-path_text [] h = refl
split_path-path_text (s ∷ ss) h = rw (path_text-body s ss) (parts-body s ss h)

lacks-join : (n : ℕ) (s t : String) → lacks n (join s t) ≡ (lacks n s && lacks n t)
lacks-join n String.[] t = rw nil-append refl
lacks-join n (String.◌∷◌ c s) t = rw (cons-append, lacks-join n s t) (ground arith)

abbrev braced : String → Segment
braced String.[] = literal ""
braced (String.◌∷◌ c s) = if code c == b'{' then parameter s else literal (String.◌∷◌ c s)

braces : (s : String) → join "{" s ≡ String.◌∷◌ "{" s
braces s = cons-append "{" "" s ∙ ap (String.◌∷◌ "{") (nil-append s)

template_text-plain :
    (ts : List Segment) → all_ordinary ts ≡ true → all_plain (template_text ts) ≡ true
template_text-plain [] h = refl
template_text-plain (literal s ∷ ts) h = ground (arith, template_text-plain ts)
template_text-plain (parameter s ∷ ts) h =
    rw (braces, lacks-join b'/' s "}") (ground (arith, template_text-plain ts))

braced-ordinary : (s : String) → ordinary s ≡ true → braced s ≡ literal s
braced-ordinary String.[] h = refl
braced-ordinary (String.◌∷◌ c s) h = ground arith

match-braced :
    (ts : List Segment) (ss : List String)
    → all_ordinary ts ≡ true
    → match_segments (map braced (template_text ts)) ss ≡ match_segments ts ss
match-braced [] ss h = refl
match-braced (literal t ∷ ts) [] h = refl
match-braced (literal t ∷ ts) (s ∷ ss) h =
    rw (braced-ordinary t (ground arith), match-braced ts ss (ground arith)) refl
match-braced (parameter t ∷ ts) [] h = refl
match-braced (parameter t ∷ ts) (s ∷ ss) h = rw (braces, match-braced ts ss (ground arith)) refl

abbrev pub unary : ℕ → String
unary zero = "u"
unary (suc n) = String.◌∷◌ "i" (unary n)

abbrev pub read_unary : String → Option ℕ
read_unary String.[] = none
read_unary (String.◌∷◌ c s) =
    let rest = Option.map suc (read_unary s) in if code c == b'u' then some zero else rest

pub unary-read : (n : ℕ) → read_unary (unary n) ≡ some n
unary-read zero = refl
unary-read (suc n) = rw (unary-read n) refl

pub unary-plain : (n : ℕ) → plain (unary n) ≡ true
unary-plain zero = refl
unary-plain (suc n) = ground (arith, unary-plain n)

abbrev pub client_serde : Serde
client_serde = record serde { uuid_text = unary }

abbrev tenant_of : Body → Option CreateTenantRequest
tenant_of (Client.tenant r) = some r
tenant_of _ = none

abbrev tool_of : Body → Option CreateToolRequest
tool_of (Client.tool r) = some r
tool_of _ = none

abbrev agent_of : Body → Option CreateAgentRequest
agent_of (Client.agent r) = some r
agent_of _ = none

abbrev run_of : Body → Option StartRunRequest
run_of (Client.run r) = some r
run_of _ = none

abbrev pub axum : Axum Body
axum = record {
  captures = λ template path. match_segments (map braced (split_path template)) (split_path path);
  uuid = read_unary;
  tenant = tenant_of;
  tool = tool_of;
  agent = agent_of;
  run = run_of;
}

pub captures-path :
    (ts : List Segment) (ss : List String)
    → all_ordinary ts ≡ true
    → all_plain ss ≡ true
    → axum.captures (path_text (template_text ts)) (path_text ss) ≡ match_segments ts ss
captures-path ts ss h plain =
    rw
      (
        split_path-path_text (template_text ts) (template_text-plain ts h),
        split_path-path_text ss plain,
      )
      (match-braced ts ss h)

abbrev pub wire : Wire client_serde axum
wire = record {
  captures-path = captures-path;
  uuid_text-plain = unary-plain;
  uuid-uuid_text = unary-read;
  tenant-json = λ r. refl;
  tool-json = λ r. refl;
  agent-json = λ r. refl;
  run-json = λ r. refl;
}
