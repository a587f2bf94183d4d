-- ===== src/Start/Limits.antt =====
-- A server that starts serves the state that its configuration asks for.
use multi_tenant_agent_platf.Prelude.{
  ℕ, ◌≤◌, ◌≡◌, ◌⊎◌, refl, sym, subst, ap, ◌∙◌, String, true, false, Option, none, some, arith,
  length, inl, inr, Bool-cases,
}
use multi_tenant_agent_platf.Text.{usize_max}
use multi_tenant_agent_platf.Exec.{Result, ok, of_result, ok_or}
use multi_tenant_agent_platf.Exec.Inversion.{bind-inv}
use multi_tenant_agent_platf.Runtime.{Services}
use multi_tenant_agent_platf.Configuration.{Config, Environment, from_env}
use multi_tenant_agent_platf.Configuration.Reading.{from_env-le}
use multi_tenant_agent_platf.Scheduler.{App, new}
use multi_tenant_agent_platf.System.{Reach}
use multi_tenant_agent_platf.System.Permits.{running_of, Reach_limits}
use multi_tenant_agent_platf.Start.{Platform, step, migrate, listen, started, prepare}

module _ {W : Type 0} (p : Platform W) where
  -- The tables are there if migrations were asked for.
  abbrev pub IsPrepared : Config → W → Type 0
  IsPrepared config w = (config.run_migrations ≡ false) ⊎ (p.is_migrated w ≡ true)

  step-inv :
      (action : W → Option (Unit {0}) × W) (message : String) (w w' : W)
      → step p action message w ≡ (ok tt, w')
      → action w ≡ (some tt, w')
  unfolding ok_or
  step-inv action message w w' h = go (action w).0 (action w).1 refl h
    where
      go :
          (o : Option (Unit {0})) (t : W)
          → action w ≡ (o, t)
          → ok_or {S = W} o message t ≡ (ok tt, w')
          → action w ≡ (some tt, w')
      go none t e h = absurd (ground arith)
      go (some tt) t e h = e ∙ ap (λ x. (some tt, x)) (ap (λ x. x.1) h)

  migrate-IsPrepared :
      (config : Config) (w w' : W) → migrate p config w ≡ (ok tt, w') → IsPrepared config w'
  unfolding migrate
  migrate-IsPrepared config w w' h = elim (Bool-cases config.run_migrations) [
    | inr e ↦ inl e
    | inl e ↦
        let (loaded, u, first_step, last_step) = bind-inv _ _ w w' tt (rw e at h) in
        let ran = step-inv p.run_migrations "failed to run migrations" u w' last_step in
        inr (
          ap p.is_migrated (sym (ap (λ x. x.1) ran))
          ∙ p.run_migrations-is_migrated u (ap (λ x. x.0) ran))
  ]

  -- The state is the configuration's, its address has just been bound, and the tables are prepared.
  abbrev pub IsServed : Config → App → W → Type 0
  IsServed config app w =
      (app ≡ new config (p.database w))
      × ((before : W) × (p.bind config.bind_addr before ≡ (some tt, w)))
      × IsPrepared config w

  -- The level of the configuration was set, and its database answered.
  abbrev pub IsConnected : Config → W → Type 0
  IsConnected config w =
      (p.connect config.database_url (p.init_tracing config.rust_log w)).0 ≡ some tt

  still-IsPrepared :
      (config : Config) (w u : W)
      → p.is_migrated u ≡ p.is_migrated w
      → IsPrepared config w
      → IsPrepared config u
  still-IsPrepared config w u e (inl off) = inl off
  still-IsPrepared config w u e (inr done) = inr (e ∙ done)

  bound-IsServed :
      (config : Config) (app : App) (w u w' : W)
      → IsPrepared config w
      → p.bind config.bind_addr w ≡ (some tt, u)
      → ◌≡◌ {A = Result String App × W} (ok (new config (p.database u)), u) (ok app, w')
      → IsServed config app w'
  bound-IsServed config app w u w' ready bound last =
      let moved : (p.bind config.bind_addr w).1 ≡ w' = ap (λ x. x.1) bound ∙ ap (λ x. x.1) last in
      let same : u ≡ w' = ap (λ x. x.1) last in
      (
        subst (λ s. app ≡ new config (p.database s)) same (ground arith),
        (w, bound ∙ ap (λ s. (some tt, s)) same),
        still-IsPrepared config w w'
            (ap p.is_migrated (sym moved) ∙ p.bind-is_migrated config.bind_addr w) ready,
      )

  listen-IsServed :
      (config : Config) (w w' : W) (app : App)
      → IsPrepared config w
      → listen p config w ≡ (ok app, w')
      → IsServed config app w'
  unfolding listen
  listen-IsServed config w w' app ready h =
      let (_, u, bound, last) = bind-inv _ _ w w' app h in
      bound-IsServed config app w u w' ready (step-inv (p.bind config.bind_addr) _ w u bound) last

  started-IsServed :
      (config : Config) (w w' : W) (app : App)
      → started p config w ≡ (ok app, w')
      → IsConnected config w × IsServed config app w'
  unfolding started
  started-IsServed config w w' app h =
      let (_, w1, traced, h1) = bind-inv _ _ w w' app h in
      let (_, w2, connected, h2) = bind-inv _ _ w1 w' app h1 in
      let (_, w3, migrated, h3) = bind-inv _ _ w2 w' app h2 in
      let answer : (p.connect config.database_url w1).0 ≡ some tt =
        ap (λ x. x.0) (step-inv (p.connect config.database_url) _ w1 w2 connected) in
      (
        ap (λ s. (p.connect config.database_url s).0) (ap (λ x. x.1) traced) ∙ answer,
        listen-IsServed config w3 w' app (migrate-IsPrepared config w2 w3 migrated) h3,
      )

  prepare-IsServed :
      (env : Environment) (w w' : W) (app : App)
      → prepare p env w ≡ (ok app, w')
      → (config : Config) × (from_env env ≡ ok config)
        × IsConnected config w
        × IsServed config app w'
  unfolding prepare of_result
  prepare-IsServed env w w' app h =
      let (config, u, read, rest) = bind-inv _ _ w w' app h in
      let (answered, served) = started-IsServed config u w' app rest in
      (
        config,
        ap (λ x. x.0) read,
        ap (λ s. (p.connect config.database_url (p.init_tracing config.rust_log s)).0)
              (ap (λ x. x.1) read)
            ∙ answered,
        served,
      )

  -- A server that has come to its listener has connected the database and bound the address of the
  -- configuration that its environment spells, and serves a new state of that configuration, with what
  -- the database holds then, on tables that are migrated if that was asked for. From then on, whatever
  -- requests and ends of runs follow, no more runs execute at a time than the configuration allows, in all
  -- and for each tenant; both limits fit a usize.
  pub prepare-limits :
      (v : Services) (env : Environment) (w w' : W) (app later : App)
      → prepare p env w ≡ (ok app, w')
      → Reach v app later
      → (config : Config) × (from_env env ≡ ok config)
        × IsConnected config w
        × IsServed config app w'
        × (length later.tasks ≤ config.global_max_concurrency)
        × ((t : ℕ) → running_of t later.tasks ≤ config.per_tenant_max_concurrency)
        × (config.global_max_concurrency ≤ usize_max)
        × (config.per_tenant_max_concurrency ≤ usize_max)
  prepare-limits v env w w' app later h reached =
      let (config, read, answered, served) = prepare-IsServed env w w' app h in
      let (all, each) = Reach_limits v config (p.database w') later (rw served.0 at reached) in
      let (global, tenant) = from_env-le env config read in
      (config, read, answered, served, all, each, global, tenant)
