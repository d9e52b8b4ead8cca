-- ===== src/Server/Start.antt =====
-- The start of the program: `main` up to the moment at which it listens, and
-- `start_optional_transports`. Logging is reported nowhere but for its failure.
pub mod Ready
use apme_api.Prelude.{
  ℕ, Bool, true, false, Option, none, some, List, [], ◌∷◌, Result, ok, err, and_then, ok_or, ensure,
  map_err, if◌then◌else◌,
}
use apme_api.Text.{Str, codes}
use apme_api.Settings.{Environment}
use apme_api.Database.{SqlError, Pool, World, Action, ◌>>=◌, ◌>>◌, lift, finish, raise_as}
use apme_api.Http.{HeaderValue, Codecs}
use apme_api.Auth.Service.{SharedAuth, ClientSettings, AuthConfigError}
use apme_api.Auth.Service as Authentication
use apme_api.Cases.Errors.{CaseServiceError, CaseConfigError}
use apme_api.Cases.Service as CaseStore
use apme_api.Api.Access.{AppState}
use apme_api.Api.Origins.{OriginError}
use apme_api.Server.Logs.{Logger, logger, LogRecord, starting}
use apme_api.Server.Cors.{CorsLayer, cors_layer_from_env}
use apme_api.Transport.Options.{OptionError}
use apme_api.Transport.Options as Tcp
use apme_api.Transport.Tls.{Rustls}
use apme_api.Transport.Listener.{Server, BindError, bind}
use apme_api.Transport.Nats.Options.{ConfigError}
use apme_api.Transport.Nats.Options as Nats
use apme_api.Transport.Nats.Topology.{Broker, ConnectError, connect}

-- What the program stands on: the cargo features, the logger, the crates, the database, the sockets
-- of the operating system and the broker.
pub record Platform : Type 0 where
  pub tcp_transport : Bool
  pub nats_transport : Bool
  pub sends : Logger → LogRecord → Bool
  pub shared_auth : ClientSettings → Option SharedAuth
  pub connect_pool : Str → Result SqlError Pool
  pub codecs : Codecs
  pub listens : Str → Bool
  pub rustls : Rustls
  pub broker : Broker
  pub is_socket_address : Str → Bool

pub data StartError : Type 0 where
  not_logged : StartError
  auth : AuthConfigError → StartError
  case_config : CaseConfigError → StartError
  migration : CaseServiceError → StartError
  origins : OriginError → StartError
  tcp_config : OptionError → StartError
  tcp_bind : BindError → StartError
  nats_config : ConfigError → StartError
  nats_connect : ConnectError → StartError
  invalid_address address_in_use : StartError

-- The two tasks, where they are on.
pub record Transports : Type 0 where
  pub tcp : Option Server
  pub nats : Option Nats.Config

abbrev pub bound : Platform → Option Tcp.Config → Result StartError (Option Server)
bound platform none = ok none
bound platform (some config) =
    and_then (map_err tcp_bind (bind platform.listens platform.rustls config))
      λ server. ok (some server)

abbrev pub connected : Platform → Option Nats.Config → Result StartError (Option Nats.Config)
connected platform none = ok none
connected platform (some config) =
    and_then (map_err nats_connect (connect platform.broker config)) λ worker. ok (some config)

-- A feature that is off leaves its environment unread.
abbrev pub tcp_if : Bool → Platform → Environment → Result StartError (Option Server)
tcp_if false platform env = ok none
tcp_if true platform env =
    and_then (map_err tcp_config (Tcp.config_from_env env)) λ config. bound platform config

abbrev pub nats_if : Bool → Platform → Environment → Result StartError (Option Nats.Config)
nats_if false platform env = ok none
nats_if true platform env =
    and_then (map_err nats_config (Nats.config_from_env env)) λ config. connected platform config

unfoldable pub start_optional_transports : Platform → Environment → Result StartError Transports
start_optional_transports platform env =
    and_then (tcp_if platform.tcp_transport platform env) λ tcp.
      and_then (nats_if platform.nats_transport platform env)
        λ nats. ok (record { tcp = tcp; nats = nats })

abbrev address_or_default : Option Str → Str
address_or_default none = codes "127.0.0.1:8080"
address_or_default (some address) = address

-- `env::var("BIND_ADDR")`, parsed.
unfoldable pub bind_address : Platform → Environment → Result StartError Str
bind_address platform env =
    let address = address_or_default (env (codes "BIND_ADDR")) in
    if platform.is_socket_address address then ok address else err invalid_address

-- The program as it listens.
pub record App : Type 0 where
  pub state : AppState
  pub cors : CorsLayer
  pub transports : Transports
  pub address : Str

-- The records that a `send` leaves.
unfoldable pub sent : Platform → LogRecord → List LogRecord
sent platform log_record = if platform.sends logger log_record then log_record ∷ [] else []

-- The record of the start is the only one whose failure counts.
unfoldable pub init_ores_logger : Platform → List LogRecord × Result StartError (Unit {0})
init_ores_logger platform =
    (sent platform starting, ensure (platform.sends logger starting) not_logged)

unfoldable pub start : Platform → Environment → Action StartError App
start platform env = do
  lift (init_ores_logger platform).1
  service ← lift (map_err auth (Authentication.from_env platform.shared_auth env))
  cases ← lift (map_err case_config (CaseStore.from_env platform.connect_pool env))
  raise_as migration (CaseStore.migrate cases)
  allowed ← lift (map_err origins (cors_layer_from_env platform.codecs env))
  transports ← lift (start_optional_transports platform env)
  address ← lift (bind_address platform env)
  lift (ensure (platform.listens address) address_in_use)
  finish (record {
    state = record { auth = service; cases = cases };
    cors = allowed;
    transports = transports;
    address = address;
  })
