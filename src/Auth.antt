-- ===== src/Auth.antt =====
-- server/src/auth.rs: API keys and the tenant that a request is made for. argon2 and rand are
-- parameters: a hasher, and the texts that the random generator gives.
pub mod Keys
pub mod Authority
pub mod Issuing
use Prim.Native.Char.{Char}
use multi_tenant_agent_platf.Prelude.{
  ◌≡◌, String, Bool, true, false, Option, none, some, if◌then◌else◌, not, ℕ, List,
}
use multi_tenant_agent_platf.Text.{join, strip_prefix, split_once, to_lowercase}
use multi_tenant_agent_platf.Error.{AppError, invalid_api_key, internal}
use multi_tenant_agent_platf.Exec.{Result, ok, err, Exec, pure, ok_or, of_result, ◌>>=◌, ◌>>◌}
use multi_tenant_agent_platf.Db.{Db, Action}
use multi_tenant_agent_platf.Db.Tenants.{ApiKeyRecord, find_active_api_key_by_prefix}

-- The argon2 crate: hashing a password with a salt, the texts that parse as a hash, verifying.
pub record Argon2 : Type 0 where
  pub hash_password : String → String → Option String
  pub parses : String → Bool
  pub verify_password : String → String → Bool
  pub hash-parses : (key salt h : String) → hash_password key salt ≡ some h → parses h ≡ true
  pub hash-verifies :
      (key salt h : String) → hash_password key salt ≡ some h → verify_password key h ≡ true

-- A header's value, and what to_str() makes of it.
pub data HeaderValue : Type 0 where
  visible : String → HeaderValue
  opaque : HeaderValue

unfoldable pub to_str : HeaderValue → Option String
to_str (visible s) = some s
to_str opaque = none

-- The headers that the server reads.
pub record HeaderMap : Type 0 where
  pub authorization : Option HeaderValue
  pub idempotency_key : Option HeaderValue

pub record TenantContext : Type 0 where
  pub tenant_id : ℕ

-- What the random generator gives to one call of generate_api_key.
pub record KeyMaterial : Type 0 where
  pub prefix : String
  pub secret : String
  pub salt : String

-- split_once('_').map(|(prefix, _)| prefix)
abbrev pub left_part : Option (String × String) → Option String
left_part none = none
left_part (some (l, r)) = some l

abbrev pub prefix_of : Option String → Option String
prefix_of none = none
prefix_of (some rest) = left_part (split_once b'_' rest)

unfoldable pub extract_key_prefix : String → Option String
extract_key_prefix api_key = prefix_of (strip_prefix "map_live_" api_key)

unfoldable pub verify_api_key : Argon2 → String → String → Result AppError (Unit {0})
verify_api_key a api_key key_hash =
    if not (a.parses key_hash)
    then err (internal "stored api key hash is invalid")
    else if a.verify_password api_key key_hash
    then ok tt
    else err invalid_api_key

-- format!("map_live_{key_prefix}_{secret}")
abbrev pub format_key : String → String → String
format_key key_prefix secret = join "map_live_" (join key_prefix (join "_" secret))

unfoldable pub generate_api_key : Argon2 → KeyMaterial → Result AppError (String × String × String)
generate_api_key a m =
    let key_prefix = to_lowercase m.prefix in
    let api_key = format_key key_prefix m.secret in
    elim (a.hash_password api_key m.salt) [
      | none ↦ err (internal "failed to hash api key")
      | some key_hash ↦ ok (api_key, key_prefix, key_hash)
    ]

unfoldable pub authenticate : Argon2 → HeaderMap → Action TenantContext
authenticate a headers = do
  value ← ok_or headers.authorization invalid_api_key
  header_value ← ok_or (to_str value) invalid_api_key
  api_key ← ok_or (strip_prefix "Bearer " header_value) invalid_api_key
  key_prefix ← ok_or (extract_key_prefix api_key) invalid_api_key
  found ← find_active_api_key_by_prefix key_prefix
  key_record ← ok_or found invalid_api_key
  of_result (verify_api_key a api_key key_record.key_hash)
  pure (record { tenant_id = key_record.tenant_id })
