-- ===== src/Server/Start/Ready.antt =====
-- What has succeeded by the time that the program listens.
use apme_api.Prelude.{
  ◌≡◌, Bool, true, false, Option, none, some, ok, and_then-eq-ok, map_err, map_err-eq-ok, ensure,
  arith,
}
use apme_api.Settings.{Environment}
use apme_api.Database.{World, execute}
use apme_api.Database.Frames.{continue-eq-ok, finish-eq-ok, raise_as-eq-ok, lift-then-eq-ok}
use apme_api.Auth.Service as Authentication
use apme_api.Cases.Service as CaseStore
use apme_api.Cases.Errors.{storage}
use apme_api.Server.Cors.{cors_layer_from_env}
use apme_api.Transport.Options as Tcp
use apme_api.Transport.Options.Bounds.{IsEnabled, config_from_env-IsEnabled}
use apme_api.Transport.Tls.Mutual.{IsMutual, load_tls_config-IsMutual}
use apme_api.Transport.Listener.{Server, bind}
use apme_api.Transport.Listener.Bounded.{bind_sound}
use apme_api.Transport.Nats.Options as Nats
use apme_api.Transport.Nats.Topology.{connect}
use apme_api.Transport.Nats.Topology.Provisioned.{IsProvisioned, connect-IsProvisioned}
use apme_api.Server.Start.{
  Platform, tcp_config, tcp_bind, nats_config, nats_connect, origins, auth, case_config, migration,
  init_ores_logger, address_in_use, Transports, bound, connected, tcp_if, nats_if,
  start_optional_transports, bind_address, App, start,
}

-- A listener that is on serves mutual TLS under a configuration within its bounds, and all its
-- permits are free.
pub record IsListening (platform : Platform) (env : Environment) (server : Server) : Type 0 where
  pub enabled : IsEnabled env server.config
  pub trusted : IsMutual platform.rustls server.config server.tls
  pub free : server.permits ≡ server.config.max_connections

abbrev pub IsTcp : Platform → Environment → Option Server → Type 0
IsTcp platform env none = Unit {0}
IsTcp platform env (some server) = IsListening platform env server

-- A worker that is on is connected to a broker on which everything is provisioned.
abbrev pub IsNats : Platform → Option Nats.Config → Type 0
IsNats platform none = Unit {0}
IsNats platform (some config) = IsProvisioned platform.broker config

bound-IsTcp :
    (platform : Platform) (env : Environment) (config : Option Tcp.Config) (tcp : Option Server)
    → Tcp.config_from_env env ≡ ok config
    → bound platform config ≡ ok tcp
    → IsTcp platform env tcp
bound-IsTcp platform env none none e h = tt
bound-IsTcp platform env none (some server) e h = cc
bound-IsTcp platform env (some config) none e h =
    let (server, made, h1) =
      and_then-eq-ok (map_err tcp_bind (bind platform.listens platform.rustls config)) _ h in
    cc
bound-IsTcp platform env (some config) (some server) e h =
    let (s, made, h1) =
      and_then-eq-ok (map_err tcp_bind (bind platform.listens platform.rustls config)) _ h in
    let same : s ≡ server = cc in
    let (own, loaded, free, bounded) =
      bind_sound platform.listens platform.rustls config s (map_err-eq-ok tcp_bind _ made) in
    let mutual_tls = load_tls_config-IsMutual platform.rustls config s.tls loaded in
    rw (← same) (record {
      enabled = rw own (config_from_env-IsEnabled env config e);
      trusted = rw own mutual_tls;
      free = rw own free;
    })

tcp_if-IsTcp :
    (on : Bool) (platform : Platform) (env : Environment) (tcp : Option Server)
    → tcp_if on platform env ≡ ok tcp
    → IsTcp platform env tcp
tcp_if-IsTcp false platform env none h = tt
tcp_if-IsTcp false platform env (some server) h = cc
tcp_if-IsTcp true platform env tcp h =
    let (config, read, h1) = and_then-eq-ok (map_err tcp_config (Tcp.config_from_env env)) _ h in
    bound-IsTcp platform env config tcp (map_err-eq-ok tcp_config _ read) h1

connected-IsNats :
    (platform : Platform) (config worker : Option Nats.Config)
    → connected platform config ≡ ok worker
    → IsNats platform worker
connected-IsNats platform none none h = tt
connected-IsNats platform none (some worker) h = cc
connected-IsNats platform (some config) none h =
    let (u, made, h1) =
      and_then-eq-ok (map_err nats_connect (connect platform.broker config)) _ h in
    cc
connected-IsNats platform (some config) (some worker) h =
    let (u, made, h1) =
      and_then-eq-ok (map_err nats_connect (connect platform.broker config)) _ h in
    let same : config ≡ worker = cc in
    rw (← same) (connect-IsProvisioned platform.broker config (map_err-eq-ok nats_connect _ made))

nats_if-IsNats :
    (on : Bool) (platform : Platform) (env : Environment) (worker : Option Nats.Config)
    → nats_if on platform env ≡ ok worker
    → IsNats platform worker
nats_if-IsNats false platform env none h = tt
nats_if-IsNats false platform env (some worker) h = cc
nats_if-IsNats true platform env worker h =
    let (config, read, h1) = and_then-eq-ok (map_err nats_config (Nats.config_from_env env)) _ h in
    connected-IsNats platform config worker h1

transports_ready :
    (platform : Platform) (env : Environment) (transports : Transports)
    → start_optional_transports platform env ≡ ok transports
    → IsTcp platform env transports.tcp × IsNats platform transports.nats
unfolding start_optional_transports
transports_ready platform env transports h =
    let (tcp, a, h1) = and_then-eq-ok (tcp_if platform.tcp_transport platform env) _ h in
    let (nats, b, h2) = and_then-eq-ok (nats_if platform.nats_transport platform env) _ h1 in
    let same : record { tcp = tcp; nats = nats } ≡ transports = cc in
    rw (← same) (
      tcp_if-IsTcp platform.tcp_transport platform env tcp a,
      nats_if-IsNats platform.nats_transport platform env nats b,
    )

-- The services and the address are those of the environment; the migration was the one statement run;
-- the layer is that of the environment; the transports that are on are ready.
pub record IsReady (platform : Platform) (env : Environment) (w w' : World) (app : App)
    : Type 0 where
  pub auth_configured : Authentication.from_env platform.shared_auth env ≡ ok app.state.auth
  pub cases_connected : CaseStore.from_env platform.connect_pool env ≡ ok app.state.cases
  pub migrated : execute app.state.cases.pool.migration w ≡ (ok tt, w')
  pub cors_allowed : cors_layer_from_env platform.codecs env ≡ ok app.cors
  pub tcp_ready : IsTcp platform env app.transports.tcp
  pub nats_ready : IsNats platform app.transports.nats
  pub address_parsed : bind_address platform env ≡ ok app.address
  pub listening : platform.listens app.address ≡ true

IsReady-same :
    (platform : Platform) (env : Environment) (w u v : World) {made app : App}
    → made ≡ app
    → u ≡ v
    → IsReady platform env w u made
    → IsReady platform env w v app
IsReady-same platform env w u v same last ready = rw (← same, ← last) ready

-- A start that succeeds is one after which everything is as `IsReady` says.
pub start-IsReady :
    (platform : Platform) (env : Environment) (w w' : World) (app : App)
    → start platform env w ≡ (ok app, w')
    → IsReady platform env w w' app
unfolding start CaseStore.migrate
start-IsReady platform env w w' app h =
    let (_, logged, h1) = lift-then-eq-ok (init_ores_logger platform).1 _ w h in
    let (service, a, h2) =
      lift-then-eq-ok (map_err auth (Authentication.from_env platform.shared_auth env)) _ w h1 in
    let (cases, b, h3) =
      lift-then-eq-ok (map_err case_config (CaseStore.from_env platform.connect_pool env)) _ w h2 in
    let (done, u, c, h4) = continue-eq-ok _ _ h3 in
    let (allowed, d, h5) =
      lift-then-eq-ok (map_err origins (cors_layer_from_env platform.codecs env)) _ u h4 in
    let (transports, e, h6) = lift-then-eq-ok (start_optional_transports platform env) _ u h5 in
    let (address, f, h7) = lift-then-eq-ok (bind_address platform env) _ u h6 in
    let (_, g, h8) = lift-then-eq-ok (ensure (platform.listens address) address_in_use) _ u h7 in
    let (made, last) = finish-eq-ok _ u h8 in
    let (tcp, nats) = transports_ready platform env transports e in
    IsReady-same platform env w u w' made last (record {
      auth_configured = map_err-eq-ok auth _ a;
      cases_connected = map_err-eq-ok case_config _ b;
      migrated = raise_as-eq-ok storage _ w (raise_as-eq-ok migration _ w c);
      cors_allowed = map_err-eq-ok origins _ d;
      tcp_ready = tcp;
      nats_ready = nats;
      address_parsed = f;
      listening = ground arith;
    })
