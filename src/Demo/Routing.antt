-- ===== src/Demo/Routing.antt =====
-- The table of routes, searched by the segments of a path.
use text.Mathlib.TextLemmas.{append_assoc}
use multi_tenant_agent_platf.Prelude.{
  ℕ, ◌≡◌, ◌∙◌, refl, String, Bool, true, ◌&&◌, Option, none, List, [], ◌∷◌, arith, ap,
}
use multi_tenant_agent_platf.Text.{join}
use multi_tenant_agent_platf.Runtime.{Serde}
use multi_tenant_agent_platf.Http.Router.{
  Axum, Methods, build_app, find_route, or_else, paired, get, post, delete, healthz, create_tenant,
  create_api_key, create_tool, list_tools, delete_tool, create_agent, get_agent, start_run, get_run,
  get_trace,
}
use multi_tenant_agent_platf.Demo.Client.{Body}
use multi_tenant_agent_platf.Demo.Delivery.{
  Segment, literal, parameter, all_ordinary, all_plain, path_text, plain, template_text,
  match_segments, Wire,
}

-- The templates of `build_app`, taken apart.
abbrev pub templates : List (List Segment × Methods)
templates =
    (literal "healthz" ∷ [], (get, healthz) ∷ [])
    ∷ (literal "tenants" ∷ [], (post, create_tenant) ∷ [])
    ∷ (
      literal "tenants" ∷ parameter "tenant_id" ∷ literal "api-keys" ∷ [],
      (post, create_api_key) ∷ [],
    )
    ∷ (literal "tools" ∷ [], (post, create_tool) ∷ (get, list_tools) ∷ [])
    ∷ (literal "tools" ∷ parameter "tool_id" ∷ [], (delete, delete_tool) ∷ [])
    ∷ (literal "agents" ∷ [], (post, create_agent) ∷ [])
    ∷ (literal "agents" ∷ parameter "agent_id" ∷ [], (get, get_agent) ∷ [])
    ∷ (literal "agents" ∷ parameter "agent_id" ∷ literal "run" ∷ [], (post, start_run) ∷ [])
    ∷ (literal "runs" ∷ parameter "run_id" ∷ [], (get, get_run) ∷ [])
    ∷ (literal "runs" ∷ parameter "run_id" ∷ literal "trace" ∷ [], (get, get_trace) ∷ [])
    ∷ []

abbrev texts : List (List Segment × Methods) → List (String × Methods)
texts [] = []
texts ((t, methods) ∷ ts) = (path_text (template_text t), methods) ∷ texts ts

abbrev are_ordinary : List (List Segment × Methods) → Bool
are_ordinary [] = true
are_ordinary ((t, methods) ∷ ts) = all_ordinary t && are_ordinary ts

-- The search in the table by segments.
abbrev pub find_by_segments :
    List (List Segment × Methods) → List String → Option (Methods × List String)
find_by_segments [] ss = none
find_by_segments ((t, methods) ∷ ts) ss =
    or_else (paired methods (match_segments t ss)) (find_by_segments ts ss)

build_app-texts : build_app ≡ texts templates
unfolding build_app
build_app-texts = refl

-- The slashes around the first segment.
slashes :
    (before rest : String)
    → join (join "/" (join before "/")) rest ≡ join "/" (join before (join "/" rest))
slashes before rest =
    append_assoc "/" (join before "/") rest ∙ ap (join "/") (append_assoc before "/" rest)

module _ {s : Serde} {x : Axum Body} (wire : Wire s x) where
  find_route-texts :
      (ts : List (List Segment × Methods)) (ss : List String)
      → are_ordinary ts ≡ true
      → all_plain ss ≡ true
      → find_route x (texts ts) (path_text ss) ≡ find_by_segments ts ss
  find_route-texts [] ss h plain = refl
  find_route-texts ((t, methods) ∷ ts) ss h plain =
      rw (wire.captures-path t ss (ground arith) plain, find_route-texts ts ss (ground arith) plain)
        refl

  pub find_route-build_app :
      (path : String) (ss : List String)
      → path ≡ path_text ss
      → all_plain ss ≡ true
      → find_route x build_app path ≡ find_by_segments templates ss
  find_route-build_app path ss same plain =
      rw (same, build_app-texts) (find_route-texts templates ss refl plain)

  -- Paths with a UUID in second place.
  pub find_with_id :
      (before : String) (id : ℕ)
      → plain before ≡ true
      → find_route x build_app (join (join "/" (join before "/")) (s.uuid_text id))
        ≡ find_by_segments templates (before ∷ s.uuid_text id ∷ [])
  find_with_id before id h =
      find_route-build_app _ (before ∷ s.uuid_text id ∷ []) (slashes before (s.uuid_text id))
        (rw (h, wire.uuid_text-plain id) refl)

  pub find_below_id :
      (before : String) (id : ℕ) (after : String)
      → plain before ≡ true
      → plain after ≡ true
      → find_route x build_app
          (join (join "/" (join before "/")) (join (s.uuid_text id) (join "/" after)))
        ≡ find_by_segments templates (before ∷ s.uuid_text id ∷ after ∷ [])
  find_below_id before id after h h' =
      find_route-build_app _ (before ∷ s.uuid_text id ∷ after ∷ [])
        (slashes before (join (s.uuid_text id) (join "/" after)))
        (rw (h, wire.uuid_text-plain id, h') refl)
