-- ===== src/Lib.antt =====
-- The multi-tenant agent platform: a verification library of its server and of its demo client.
--
-- The program. The server (server/src) keeps tenants, API keys, tools, agents, runs and their traces in
-- PostgreSQL. A request is authenticated by an API key, its handler works on the rows of the key's
-- tenant, and starting a run takes a global and a tenant permit and spawns a task in which a mock model
-- calls tools until it gives its final answer. The request and response types are in
-- crates/platform-core.
--
-- The parts and their files.
--   Core           crates/platform-core/src/lib.rs: RunStatus, ChatMessage, the request types
--   Error          server/src/error.rs: AppError, error_code, status_code, into_response
--   Db             server/src/db.rs and server/src/trace.rs over server/migrations/0001_init.sql: the
--                  tables are the lists of the record Db, a statement is a function Db -> Result x Db,
--                  a constraint of a table is a function `..._violation`. Db/Transaction: begin and commit
--   Auth           server/src/auth.rs: extract_key_prefix, verify_api_key, generate_api_key,
--                  authenticate
--   Runtime        server/src/runtime.rs: mock_llm_decision, authorize_tool_call, execute_run (in
--                  Runtime/Loop, a function for each part of its body)
--   Scheduler      schedule_run of server/src/runtime.rs and AppState of server/src/app.rs
--   Http           server/src/http.rs, a function for each handler; Http/Routes is a request that has
--                  reached its handler, as the type Request, and the function serve; Http/Router is the
--                  table of routes of server/src/app.rs and the way from a request to its handler
--   Configuration  server/src/config.rs: from_env, parse_usize, parse_bool
--   Start          server/src/main.rs: main, as steps that may fail
--   System         the running server: requests and spawned runs as the steps of a relation
--   Demo           demo/src/main.rs and demo/src/client.rs: Demo/Client is ApiClient, Demo/Requests the
--                  request of each subcommand, Demo/Handlers the commands and wait_for_run;
--                  Demo/Delivery puts the client's requests before the server's router
-- The files Exec (fallible code over a state), Rows (the SQL that is used), Json, Text (Rust's text
-- functions) and Prelude are what these share. The other files hold proofs: Frames (what every
-- operation keeps, if each statement does), Tenancy (isolation; Tenancy/Joins is about the
-- queries over two tables), History (the trace as a log),
-- Lifecycle (how a run starts, moves forward and stays ended), Outcome (how a run ends), Idempotency
-- (idempotency keys), Toolbox (tools), Binding (the creation of an agent), Examples and Samples
-- (concrete states).
--
-- How code is written here. An async function is a function of the database, or of the application's
-- state, to a Result and the new state; what was written before an error stays written, except in a
-- transaction. The agent loop recurs on the number of rounds that are left, which is the agent's
-- max_iterations, so no fuel is needed. `decimal` prints a number of 64 bits, which has at most
-- twenty digits, with fuel that is enough: it prints the loop's counter, an i32, and usize.
-- wait_for_run of the demo client recurs on fuel, which stands for the requests that it may send; one
-- more than the timeout has seconds is enough if it pauses for at least a second. A deadline is taken
-- to be one that Instant can hold. UUIDs and time stamps are numbers that the engine gives by a
-- counter of statements; Uuid::nil() is 0. A semaphore is the number of its free permits, and
-- the limits are taken to be at most usize::MAX >> 3, above which tokio's Semaphore::new panics.
--
-- Parameters. PostgreSQL's UUIDs, clock, order among equal keys and treatment of a failed transaction
-- (record Engine), argon2 (Argon2), jsonschema (JsonSchema), serde and to_string (Serde) and the
-- random texts of a key (KeyMaterial), the libraries of the server's start (Platform), axum's
-- matching and extractors (Axum), reqwest's header values (Reqwest), the client's network, files,
-- clock and output (Host) and serde in the client (Format) are arguments, with the documented laws as
-- fields. One engine orders rows with equal keys by a fixed function of these rows; the theorems hold
-- for every engine, and the one on what a tenant reads takes two, so that no order of equal keys is
-- assumed. Wire says that the server reads the UUIDs, JSON and paths that the client writes.
--
-- Not modelled. Lost connections and timeouts of the server; the columns api_keys.id and
-- run_traces.id, which no statement names; JSONB's normal form; the interleaving of the statements of
-- two concurrent requests or runs (a request, and a run from its start to its end, is one step);
-- to_lowercase beyond ASCII, as keys are alphanumeric; the set-up of logging in init_tracing; clap's
-- parsing of the command line; HEAD requests, which axum answers by a GET route; a request of the
-- client that never comes back, as reqwest sets no time limit of its own; what a URL's host and path
-- are made of.
pub mod Prelude
pub mod Exec
pub mod Rows
pub mod Json
pub mod Core
pub mod Error
pub mod Db
pub mod Tenancy
pub mod Text
pub mod Configuration
pub mod Auth
pub mod Runtime
pub mod Scheduler
pub mod Start
pub mod Http
pub mod Frames
pub mod System
mod Samples
mod Examples
pub mod History
pub mod Lifecycle
pub mod Idempotency
pub mod Toolbox
pub mod Outcome
pub mod Binding
pub mod Demo
