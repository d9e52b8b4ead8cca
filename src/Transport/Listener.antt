-- ===== src/Transport/Listener.antt =====
-- The accept loop of the mTLS listener, `tcp::Server`: `bind`, `serve` and the tasks that it spawns, one
-- for each connection. A task holds its permit until it returns.
pub mod Bounded
use apme_api.Prelude.{
  ℕ, ◌+◌, Bool, true, false, Option, none, some, bind_some, List, [], ◌∷◌, Result, ok, err, ensure,
  map_err, zero, suc,
}
use apme_api.Prelude.Try.{◌>>=◌, ◌>>◌}
use apme_api.Text.{Str}
use apme_api.Transport.Options.{Config}
use apme_api.Transport.Tls.{Rustls, TlsError, ServerConfig, load_tls_config}

-- How `serve` returns.
pub data Returned : Type 0 where
  shut_down : Returned
  shutdown_channel_closed : Returned
  accept_failed : Returned

-- `Server`, with the tasks that it has spawned: in the TLS handshake, or serving a connection.
pub record Server : Type 0 where
  pub tls : ServerConfig
  pub config : Config
  pub permits : ℕ
  pub handshaking : ℕ
  pub connected : ℕ
  pub returned : Option Returned

pub data BindError : Type 0 where
  address_not_bound : BindError
  tls_config : TlsError → BindError

-- `listens` says whether `TcpListener::bind` succeeds at an address.
unfoldable pub bind : (Str → Bool) → Rustls → Config → Result BindError Server
bind listens tls config = do
  ensure (listens config.bind) address_not_bound
  server ← map_err tls_config (load_tls_config tls config)
  ok (record {
    tls = server;
    config = config;
    permits = config.max_connections;
    handshaking = 0;
    connected = 0;
    returned = none;
  })

-- What happens next: the first three to the loop, the others to one of the tasks.
pub data Event : Type 0 where
  shutdown_changed : Event
  shutdown_closed : Event
  accept : Bool → Event
  handshake_failed : Event
  handshake_done : Event
  connection_ended : Event

-- The loop leaves for good.
abbrev pub leave : Returned → Server → Server
leave how server = record server { returned = some how }

-- `try_acquire_owned`: without a permit the new stream is dropped, and the loop goes on.
abbrev pub admit : ℕ → Server → Server
admit zero server = server
admit (suc permits) server = record server {
  permits = permits;
  handshaking = suc server.handshaking;
}

-- The arms of the `select!`.
abbrev pub looped : Option Returned → Server → Option Server
looped none server = some server
looped (some how) server = none

-- A task of a kind of which there is none cannot go on.
abbrev pub fewer : ℕ → Option ℕ
fewer zero = none
fewer (suc n) = some n

-- `none` where the event cannot happen. The tasks outlive the loop.
unfoldable pub step : Server → Event → Option Server
step server shutdown_changed = looped server.returned (leave shut_down server)
step server shutdown_closed = looped server.returned (leave shutdown_channel_closed server)
step server (accept false) = looped server.returned (leave accept_failed server)
step server (accept true) = looped server.returned (admit server.permits server)
step server handshake_failed =
    bind_some (fewer server.handshaking) λ handshaking.
      some (record server { permits = suc server.permits; handshaking = handshaking })
step server handshake_done = bind_some (fewer server.handshaking) λ handshaking.
    some (record server { handshaking = handshaking; connected = suc server.connected })
step server connection_ended =
    bind_some (fewer server.connected)
      λ connected. some (record server { permits = suc server.permits; connected = connected })

abbrev pub after : Server → Option Server → Server
after server none = server
after server (some next) = next

-- Any events in any order; one that cannot happen is passed over.
unfoldable pub run : Server → List Event → Server
run server [] = server
run server (event ∷ events) = run (after server (step server event)) events
