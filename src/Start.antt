-- ===== src/Start.antt =====
-- The start of the server (server/src/main.rs). What tracing, sqlx, tokio and axum do there is a
-- platform, a parameter; an error is the text of its outermost context.
pub mod Limits
use multi_tenant_agent_platf.Prelude.{
  ℕ, String, Bool, true, false, ◌≡◌, Option, none, some, if◌then◌else◌,
}
use multi_tenant_agent_platf.Text.{join}
use multi_tenant_agent_platf.Exec.{Result, ok, err, Exec, pure, of_result, ok_or, ◌>>=◌, ◌>>◌}
use multi_tenant_agent_platf.Db.{Db}
use multi_tenant_agent_platf.Configuration.{Config, Environment, from_env}
use multi_tenant_agent_platf.Scheduler.{App, new}

-- An action of a library either succeeds or fails; what the database holds is part of the world.
pub record Platform (W : Type 0) : Type 1 where
  pub init_tracing : String → W → W
  pub connect : String → W → Option (Unit {0}) × W
  pub load_migrations : String → W → Option (Unit {0}) × W
  pub run_migrations : W → Option (Unit {0}) × W
  pub bind : String → W → Option (Unit {0}) × W
  pub serve : App → W → Option (Unit {0}) × W
  pub database : W → Db
  -- The tables of the migrations are there.
  pub is_migrated : W → Bool
  pub run_migrations-is_migrated :
      (w : W) → (run_migrations w).0 ≡ some tt → is_migrated (run_migrations w).1 ≡ true
  pub bind-is_migrated : (addr : String) (w : W) → is_migrated (bind addr w).1 ≡ is_migrated w

module _ {W : Type 0} (p : Platform W) where
  -- `.await.context(message)?`
  abbrev pub step : (W → Option (Unit {0}) × W) → String → Exec W String (Unit {0})
  step action message w = let (o, w') = action w in ok_or o message w'

  unfoldable pub migrate : Config → Exec W String (Unit {0})
  migrate config =
      if config.run_migrations
      then (do
        step (p.load_migrations "server/migrations") "failed to load migrations"
        step p.run_migrations "failed to run migrations")
      else pure tt

  -- The listener, and the state that is served.
  unfoldable pub listen : Config → Exec W String App
  listen config = do
    step (p.bind config.bind_addr) (join "failed to bind " config.bind_addr)
    λ w. (ok (new config (p.database w)), w)

  -- `main` from the configuration to the listener.
  unfoldable pub started : Config → Exec W String App
  unfolding migrate listen
  started config = do
    λ w. (ok tt, p.init_tracing config.rust_log w)
    step (p.connect config.database_url) "failed to connect to postgres"
    migrate config
    listen config

  unfoldable pub prepare : Environment → Exec W String App
  unfolding started
  prepare env = do config ← of_result (from_env env); started config

  unfoldable pub main : Environment → Exec W String (Unit {0})
  unfolding prepare
  main env = do app ← prepare env; step (p.serve app) "server failed"
