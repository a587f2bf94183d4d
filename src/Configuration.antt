-- ===== src/Configuration.antt =====
-- server/src/config.rs. The environment is what std::env::var gives for a name: a text, or none where
-- the variable is not set or is no Unicode. An error is the text of its outermost context.
pub mod Reading
use multi_tenant_agent_platf.Prelude.{
  ℕ, String, Bool, true, false, ◌||◌, Option, none, some, str_eq, if◌then◌else◌,
}
use multi_tenant_agent_platf.Exec.{Result, ok, err}
use multi_tenant_agent_platf.Text.{join, parse_usize_text}

pub record Config : Type 0 where
  pub database_url : String
  pub bind_addr : String
  pub rust_log : String
  pub global_max_concurrency : ℕ
  pub per_tenant_max_concurrency : ℕ
  pub run_migrations : Bool

abbrev pub Environment : Type 0
Environment = String → Option String

-- `.context(message)?` on a value that may be missing
unfoldable pub required : String → Option String → Result String String
required message none = err message
required message (some value) = ok value

abbrev pub unwrap_or : String → Option String → String
unwrap_or default none = default
unwrap_or default (some value) = value

abbrev pub with_context : String → Option ℕ → Result String ℕ
with_context message none = err message
with_context message (some n) = ok n

-- The match on what the variable holds.
abbrev pub usize_or : String → ℕ → Option String → Result String ℕ
usize_or key default none = ok default
usize_or key default (some value) =
    with_context (join key " must be a positive integer") (parse_usize_text value)

unfoldable pub parse_usize : Environment → String → ℕ → Result String ℕ
parse_usize env key default = usize_or key default (env key)

abbrev pub bool_or : Bool → Option String → Bool
bool_or default none = default
bool_or default (some value) =
    str_eq value "1"
    || str_eq value "true"
    || str_eq value "TRUE"
    || str_eq value "yes"
    || str_eq value "YES"

unfoldable pub parse_bool : Environment → String → Bool → Bool
parse_bool env key default = bool_or default (env key)

-- `?` on a result
abbrev pub and_then : {A B : Type 0} → Result String A → (A → Result String B) → Result String B
and_then (err e) f = err e
and_then (ok a) f = f a

-- Ok(Self { … })
unfoldable pub configured : Environment → String → ℕ → ℕ → Config
unfolding parse_bool
configured env database_url global_max_concurrency per_tenant_max_concurrency = record {
  database_url = database_url;
  bind_addr = unwrap_or "127.0.0.1:3000" (env "BIND_ADDR");
  rust_log = unwrap_or "info,sqlx=warn,hyper=warn" (env "RUST_LOG");
  global_max_concurrency = global_max_concurrency;
  per_tenant_max_concurrency = per_tenant_max_concurrency;
  run_migrations = parse_bool env "RUN_MIGRATIONS" true;
}

unfoldable pub from_env : Environment → Result String Config
unfolding required parse_usize configured
from_env env = and_then (required "DATABASE_URL is required" (env "DATABASE_URL")) λ database_url.
    and_then (parse_usize env "GLOBAL_MAX_CONCURRENCY" 32) λ global_max_concurrency.
      and_then (parse_usize env "PER_TENANT_MAX_CONCURRENCY" 8) λ per_tenant_max_concurrency.
        ok (configured env database_url global_max_concurrency per_tenant_max_concurrency)
