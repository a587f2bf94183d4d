-- ===== src/Demo.antt =====
-- The demo client (demo/src/main.rs, demo/src/client.rs): its command line as clap has parsed it. A
-- path of a file is a text.
pub mod Client
pub mod Requests
pub mod Handlers
pub mod Waiting
pub mod Delivery
pub mod Session
pub mod Routing
pub mod Agreement
use multi_tenant_agent_platf.Prelude.{ℕ, String, Bool, Option, List, ℤ}

pub data TenantsSubcommand : Type 0 where
  create : String → TenantsSubcommand

pub data ApiKeysSubcommand : Type 0 where
  create : ℕ → ApiKeysSubcommand

-- The API key comes first, then the name and the files of the schema and the handler.
pub data ToolsSubcommand : Type 0 where
  create : String → String → String → String → ToolsSubcommand
  list : String → ToolsSubcommand
  delete : String → ℕ → ToolsSubcommand

-- The API key, the name, the system prompt, the tools and the number of iterations.
pub data AgentsSubcommand : Type 0 where
  create : String → Option String → String → List ℕ → ℤ → AgentsSubcommand
  get : String → ℕ → AgentsSubcommand

-- `start` has the API key, the agent, the message, the idempotency key and the flag for an invalid
-- call, `wait` has the timeout and the pause between two requests, in seconds.
pub data RunsSubcommand : Type 0 where
  start : String → ℕ → String → Option String → Bool → RunsSubcommand
  get : String → ℕ → RunsSubcommand
  wait : String → ℕ → ℕ → ℕ → RunsSubcommand
  trace : String → ℕ → RunsSubcommand

pub data Commands : Type 0 where
  tenants : TenantsSubcommand → Commands
  api_keys : ApiKeysSubcommand → Commands
  tools : ToolsSubcommand → Commands
  agents : AgentsSubcommand → Commands
  runs : RunsSubcommand → Commands

pub record Cli : Type 0 where
  pub base_url : String
  pub command : Commands
