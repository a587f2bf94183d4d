-- ===== src/Configuration/Reading.antt =====
-- What is read from an environment.
use multi_tenant_agent_platf.Prelude.{
  ℕ, ◌+◌, ◌-◌, ◌*◌, ◌≤◌, ◌≡◌, refl, String, Bool, true, false, ◌&&◌, leb, Option, none, some, arith,
  str_eq, if◌then◌else◌, inl, inr, Bool-cases,
}
use Prim.Native.Char.{code}
use multi_tenant_agent_platf.Exec.{Result, ok, err}
use multi_tenant_agent_platf.Text.Values.{is_number, unsigned, value, parse_usize_text-value}
use multi_tenant_agent_platf.Text.{
  join, decimal, usize_max, parse_digits, parse_unsigned, parse_usize_text,
}
use multi_tenant_agent_platf.Text.Numbers.{parse_usize_text-decimal}
use multi_tenant_agent_platf.Configuration.{
  Config, Environment, required, usize_or, parse_usize, parse_bool, and_then, from_env,
  with_context, configured,
}

-- The environment that spells a configuration out.
abbrev pub environment : Config → Environment
environment c key =
    if str_eq key "DATABASE_URL"
    then some c.database_url
    else if str_eq key "BIND_ADDR"
    then some c.bind_addr
    else if str_eq key "RUST_LOG"
    then some c.rust_log
    else if str_eq key "GLOBAL_MAX_CONCURRENCY"
    then some (decimal c.global_max_concurrency)
    else if str_eq key "PER_TENANT_MAX_CONCURRENCY"
    then some (decimal c.per_tenant_max_concurrency)
    else if str_eq key "RUN_MIGRATIONS"
    then some (if c.run_migrations then "true" else "false")
    else none

-- A configuration whose limits fit a usize can be given by the environment: written out in the six
-- variables, with the limits in decimal and the flag as "true" or "false", it is read back as it is.
pub from_env-environment :
    (c : Config)
    → c.global_max_concurrency ≤ usize_max
    → c.per_tenant_max_concurrency ≤ usize_max
    → from_env (environment c) ≡ ok c
unfolding from_env required parse_usize parse_bool configured
from_env-environment c global tenant = elim (Bool-cases c.run_migrations) [
  | inl e ↦
      rw
        (
          parse_usize_text-decimal c.global_max_concurrency global,
          parse_usize_text-decimal c.per_tenant_max_concurrency tenant,
          e,
        )
        refl
  | inr e ↦
      rw
        (
          parse_usize_text-decimal c.global_max_concurrency global,
          parse_usize_text-decimal c.per_tenant_max_concurrency tenant,
          e,
        )
        refl
]

parse_digits-le :
    (max acc n : ℕ) (s : String) → acc ≤ max → parse_digits max acc s ≡ some n → n ≤ max
unfolding parse_digits
parse_digits-le max acc n String.[] fits e = ground arith
parse_digits-le max acc n (String.◌∷◌ c s) fits e =
    ground (arith, parse_digits-le max (acc * 10 + (code c - b'0')) n s)

parse_usize_text-le : (s : String) (n : ℕ) → parse_usize_text s ≡ some n → n ≤ usize_max
unfolding parse_usize_text parse_unsigned
parse_usize_text-le String.[] n e = absurd (ground arith)
parse_usize_text-le (String.◌∷◌ c String.[]) n e =
    ground (arith, parse_digits-le usize_max 0 n (String.◌∷◌ c "") (omega arith))
parse_usize_text-le (String.◌∷◌ c (String.◌∷◌ d s)) n e = ground (
  arith,
  parse_digits-le usize_max 0 n (String.◌∷◌ c (String.◌∷◌ d s)) (omega arith),
  parse_digits-le usize_max 0 n (String.◌∷◌ d s) (omega arith),
)

with_context-le :
    (message value : String) (n : ℕ)
    → with_context message (parse_usize_text value) ≡ ok n
    → n ≤ usize_max
with_context-le message value n = go (parse_usize_text value) (parse_usize_text-le value)
  where
    go :
        (o : Option ℕ)
        → ((m : ℕ) → o ≡ some m → m ≤ usize_max)
        → with_context message o ≡ ok n
        → n ≤ usize_max
    go none le e = absurd (ground (arith, e))
    go (some m) le e = ground (arith, e, le m refl)

parse_usize-le :
    (env : Environment) (key : String) (default n : ℕ)
    → default ≤ usize_max
    → parse_usize env key default ≡ ok n
    → n ≤ usize_max
unfolding parse_usize
parse_usize-le env key default n fits = go (env key)
  where
    go : (o : Option String) → usize_or key default o ≡ ok n → n ≤ usize_max
    go none e = ground (arith, e)
    go (some value) e = with_context-le _ value n e

-- A configuration that is read from any environment has limits that fit a usize.
pub from_env-le :
    (env : Environment) (c : Config)
    → from_env env ≡ ok c
    → (c.global_max_concurrency ≤ usize_max) × (c.per_tenant_max_concurrency ≤ usize_max)
unfolding from_env configured
from_env-le env c =
    go (required "DATABASE_URL is required" (env "DATABASE_URL"))
      (parse_usize env "GLOBAL_MAX_CONCURRENCY" 32) (parse_usize env "PER_TENANT_MAX_CONCURRENCY" 8)
      (λ n. parse_usize-le env "GLOBAL_MAX_CONCURRENCY" 32 n (omega arith))
      (λ n. parse_usize-le env "PER_TENANT_MAX_CONCURRENCY" 8 n (omega arith))
  where
    go :
        (u : Result String String) (g t : Result String ℕ)
        → ((n : ℕ) → g ≡ ok n → n ≤ usize_max)
        → ((n : ℕ) → t ≡ ok n → n ≤ usize_max)
        → and_then u (λ url. and_then g (λ x. and_then t (λ y. ok (configured env url x y)))) ≡ ok c
        → (c.global_max_concurrency ≤ usize_max) × (c.per_tenant_max_concurrency ≤ usize_max)
    go (err e) g t hg ht h = absurd (ground (arith, h))
    go (ok url) (err e) t hg ht h = absurd (ground (arith, h))
    go (ok url) (ok x) (err e) hg ht h = absurd (ground (arith, h))
    go (ok url) (ok x) (ok y) hg ht h = ground (arith, h, hg x refl, ht y refl)

-- A variable that is set, to whatever text, is read as the number that its digits denote, behind a plus
-- sign or without one and with leading zeros or not; it is an error if there is no digit, if anything
-- else stands in the text, or if the number exceeds the largest usize, which it never wraps around.
pub parse_usize-value :
    (env : Environment) (key : String) (default : ℕ) (s : String)
    → env key ≡ some s
    → parse_usize env key default ≡ (
        if is_number (unsigned s) && leb (value (unsigned s)) usize_max
        then ok (value (unsigned s))
        else err (join key " must be a positive integer"))
unfolding parse_usize
parse_usize-value env key default s set =
    rw (set, parse_usize_text-value s)
      (go (is_number (unsigned s) && leb (value (unsigned s)) usize_max))
  where
    go :
        (b : Bool)
        → with_context
            (join key " must be a positive integer")
            (if b then some (value (unsigned s)) else none)
          ≡ (if b then ok (value (unsigned s)) else err (join key " must be a positive integer"))
    go true = refl
    go false = refl
