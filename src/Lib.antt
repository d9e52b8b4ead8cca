-- ===== src/Lib.antt =====
-- Verification of the APME API server: a multi-tenant service for document cases.
--
-- The program authenticates a request against Shared Auth (src/auth.rs), finds the tenant membership
-- of its subject and runs case operations on PostgreSQL (src/cases.rs), and offers them as REST
-- handlers that publish events to WebSocket subscribers (src/main.rs). Two transports are optional: a TCP
-- listener under mutual TLS, and a worker that answers status requests over NATS (src/transport.rs).
-- This library models these parts as functions on explicit state.
--
-- Files and the code that they model:
--   Prelude, Text     shared lists, results and integers; `str` as its Unicode scalar values.
--   Domain            the types of the apme-interfaces crate, with the fields that the program uses;
--                     its functions, and those of serde_json and sha2, are the parameter `Interfaces`.
--   Database          PostgreSQL as the program meets it. A `World` holds the tables, the turns to come
--                     and the events published. Before each statement the tables may be changed by other
--                     sessions (`Turn.others`), and the connection may fail before or after the statement
--                     takes effect (`Turn.link`), so every theorem holds for any interleaving of
--                     statements. The stored procedures are the parameter `Pool`. Views is what the tables
--                     hold about one tenant, and runs that this tenant cannot tell apart; Invariants
--                     is about runs that keep what holds of the tables.
--   Settings, Http    environment variables, headers; the http and uuid crates are `Codecs`.
--   Auth              src/auth.rs: Session is `validate_active_session`, Service is `AuthService`. The
--                     guard and the introspection client are the parameter `SharedAuth`.
--   Cases             src/cases.rs: Errors (`map_sql_error`), Names (the spelling of enumerations), Rows
--                     (`case_from_row`), Guards (checks before the database), Queries (the SELECT
--                     statements on tables), Service, Lookup and Mutations (`CaseService`). Tenancy is what a
--                     procedure must keep to for tenants to be apart: `part` says which of the tables
--                     that only the procedures read belong to a tenant. Mutations/Fresh is what they must
--                     keep to for a replay to be told from a new event.
--   Api               src/main.rs: Errors (`ApiError`), Origins (`parse_allowed_origins`), Access
--                     (`authorized_tenant`, `authorize_token`), Handlers (the REST handlers and
--                     `publish_mutation`), Sockets (`websocket`, `socket_loop`).
--   Transport         src/transport.rs: Options is the configuration of the mTLS listener, Tls its TLS
--                     set-up (`load_tls_config`), Listener its accept loop (`tcp::Server`), Tcp its frames
--                     (`execute`) and the loop of one connection; serde_json is the parameter `Wire`,
--                     rustls the parameter `Rustls`. Nats is the status worker: Options (`nats::Config`),
--                     Topology (`Worker::connect` and what it demands of the broker), Worker (`serve`,
--                     `handle`, `decode_signal`), and Queue, the worker on a work queue that
--                     redelivers up to a limit; async-nats is the parameter `Broker`, and the fate of each call.
--   Server            src/main.rs: Pages (`index`, `health`, `metrics`), Router (the routes and the answer
--                     of each endpoint; its modules Tenancy, Confined and Purge are about what the
--                     requests of one tenant show of the others, Once about events and repeated
--                     requests), Cors (`cors_layer`), Start (`main` up to the moment at which it listens,
--                     `start_optional_transports`), Logs (the records of next-loggers), Stop (the whole
--                     of `main`, with its graceful shutdown).
--   Tests             runs on a small deployment, and the theorems applied to them.
-- Definitions keep the names of the functions that they model; the theorems stand in the child modules.
--
-- An asynchronous operation is an `Action`: a function from a world to a result and the world after it.
-- One statement is one step, and what other tasks do meanwhile is in the turn of the next statement.
-- Loops are structural: over lists of rows, origins, arrivals and events, or over the number of requests
-- that a connection may make. The one fuel is that of the decimal print, a number and one more, which is
-- more than it has digits. The accept loop is a step function on its permits and tasks, the work queue a
-- step relation with its reachable states: their events come in any order.
--
-- Not modelled: PostgreSQL's procedures, which another crate holds; what axum and tower-http do with the
-- routes and the layers, of which a request comes with the outcome; the lines that tracing writes; what
-- the runtime does with the tasks that still run when `main` returns.
pub mod Prelude
pub mod Text
pub mod Domain
pub mod Database
pub mod Settings
pub mod Http
pub mod Cases
pub mod Auth
pub mod Api
pub mod Transport
pub mod Tests
pub mod Server
