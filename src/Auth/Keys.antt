-- ===== src/Auth/Keys.antt =====
-- A generated key carries its prefix.
use Prim.Native.Char.{Char}
use text.Mathlib.TextLemmas.{nil-append, cons-append}
use multi_tenant_agent_platf.Prelude.{◌≡◌, ap, ◌∙◌, String, some}
use multi_tenant_agent_platf.Text.{join}
use multi_tenant_agent_platf.Text.Prefixes.{strip_prefix-join, split_once-join, Lacks}
use multi_tenant_agent_platf.Auth.{left_part, extract_key_prefix, format_key}

underscore : Char
underscore = "_"

join-underscore : (secret : String) → join "_" secret ≡ String.◌∷◌ underscore secret
unfolding underscore
join-underscore secret =
    cons-append underscore "" secret ∙ ap (String.◌∷◌ underscore) (nil-append secret)

-- The prefix that is read off a key is the one that the key was put together from, if that prefix holds
-- no underscore; the secret may hold any character.
pub extract_key_prefix-format_key :
    (key_prefix secret : String)
    → Lacks b'_' key_prefix
    → extract_key_prefix (format_key key_prefix secret) ≡ some key_prefix
unfolding extract_key_prefix underscore
extract_key_prefix-format_key key_prefix secret h =
    rw (strip_prefix-join "map_live_" (join key_prefix (join "_" secret)), join-underscore secret)
      (ap left_part (split_once-join underscore key_prefix secret h))
