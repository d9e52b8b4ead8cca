-- ===== src/Tests/Server.antt =====
-- The whole program on concrete requests.
use apme_api.Auth.Service as Authentication
use apme_api.Cases.Service as CaseStore
use apme_api.Transport.Tls.{load_tls_config}
use apme_api.Transport.Listener.{bind}
use apme_api.Prelude.{
  ◌≡◌, ◌≢◌, refl, Bool, true, false, Option, none, some, inr, inl, mem_cases, List, [], ◌∷◌, ◌++◌,
  Memᴰ, length, ok, err, any, select, collect_map, All, Pairs, if◌then◌else◌, all,
}
use apme_api.Text.{
  Str, codes, str_eq, len, is_control, trim, trim_start, trim_end, is_whitespace, strip_prefix,
  contains_char, split,
}
use apme_api.Domain.{VerifiedSubject, TenantContext, CaseSubscription}
use apme_api.Settings.{Environment, setting}
use apme_api.Database.{lift, TenantEvent, current, continue, finish, raise_as, read, execute}
use apme_api.Http.{authorization, tenant_header, idempotency_header}
use apme_api.Auth.Session.{
  is_exactly, has_expired, is_premature, is_refused, validate_active_session, cases_read_scope,
}
use apme_api.Auth.Service.{
  bearer, accept_outcome, authenticate, authenticate_with_scopes, required_env,
}
use apme_api.Cases.Names.{parse_role, parse_status, parse_retention, retention_name, status_name}
use apme_api.Cases.Rows.{case_from_row, document_of_columns}
use apme_api.Cases.Guards.{canonical_hash, validate_idempotency_key, require_mutator}
use apme_api.Cases.Queries.{
  select_context, join_memberships, member_of, case_select_one, is_live, select_event,
}
use apme_api.Cases.Lookup.{tenant_context}
use apme_api.Cases.Mutations.{prepare_create, mutation_result}
use apme_api.Api.Access.{tenant_id, idempotency_key, authorized_tenant_with_scopes}
use apme_api.Cases.Lookup
use apme_api.Cases.Mutations
use apme_api.Auth.Service.Outcomes.{IsAuthenticated}
use apme_api.Api.Access.Membership.{IsGranted}
use apme_api.Api.Handlers.{Clock, create_case, publish_unless_replayed, publish_mutation}
use apme_api.Api.Origins.{
  origins_or_default, candidates, authority_of, is_not_authority, parse_allowed_origins,
  parse_origin, eq_ignore_ascii_case, to_ascii_lowercase,
}
use apme_api.Api.Origins.Accepted.{IsOrigin}
use apme_api.Api.Sockets.{
  WebSocketQuery, websocket, subscription_allows, react, Arrival, delivered, ping, text,
  socket_loop,
}
use apme_api.Api.Sockets.Isolation.{IsSubscribed}
use apme_api.Api.Sockets.Complete.{Sent, IsKept, socket_loop_complete}
use apme_api.Transport.Options.{
  parse_digits, bounded_env, config_from_env, enabled, parse_usize, required_path,
}
use apme_api.Server.Pages.{metrics, metrics_text, digits, decimal}
use apme_api.Server.Pages.Decimal.{metrics-counts}
use apme_api.Server.Router.{
  Request, post, routes, respond, respond_all, find_route, endpoint_answer,
}
use apme_api.Server.Router.Broadcast.{IsAnnounced, respond-IsAnnounced}
use apme_api.Server.Router.Provenance.{IsRequested, socket_texts-IsRequested}
use apme_api.Server.Cors.{CorsLayer, layer_for, cors_layer_from_env, cors_layer}
use apme_api.Server.Cors.Coverage.{cors_layer_from_env-covers}
use apme_api.Server.Start.{
  Platform, App, init_ores_logger, start, bind_address, start_optional_transports,
}
use apme_api.Server.Start.Ready.{IsReady, start-IsReady}
use apme_api.Tests.Listener.{tls}
use apme_api.Tests.Fixture.{
  lib, codecs, remote, pool, state, clock, headers, tenant, world, published, told, creation,
}

abbrev pub version : Str
version = codes "1"

abbrev pub request : Request
request = record {
  matched_path = some (codes "/api/v1/cases");
  method = post;
  headers = headers;
  path_id = err 400;
  create_body = ok creation;
  transition_body = err 422;
  rotate_body = err 422;
  upgrade = err 400;
  query = err 400;
}

respond_example :
    IsAnnounced codecs state 50 headers world (respond lib codecs state version clock request world)
respond_example = respond-IsAnnounced lib codecs state version clock request world

abbrev requests : List (Clock × Request)
requests = (clock, request) ∷ []

abbrev query : WebSocketQuery
query = record { tenant_id = tenant; case_id = none }

abbrev subscription : CaseSubscription
subscription = record { tenant_id = tenant; case_id = none }

abbrev render : TenantEvent → Option Str
render event = some (event.case_id ∷ [])

abbrev arrivals : List (Arrival × Bool)
arrivals = (ping (codes "p"), true) ∷ (delivered told, true) ∷ []

all_created : respond_all lib codecs state version requests world ≡ published
unfolding respond_all respond find_route routes endpoint_answer create_case Mutations.create_case
    prepare_create require_mutator continue raise_as read lift finish execute str_eq codes any len
    is_control select collect_map authorized_tenant_with_scopes authenticate_with_scopes
    accept_outcome bearer trim trim_start trim_end is_whitespace strip_prefix is_exactly has_expired
    is_premature is_refused validate_active_session tenant_id tenant_context select_context
    join_memberships member_of parse_role idempotency_key publish_unless_replayed publish_mutation
    validate_idempotency_key canonical_hash mutation_result Lookup.get_case case_select_one is_live
    select_event case_from_row parse_status parse_retention document_of_columns retention_name
    status_name
all_created = refl

upgraded : websocket codecs state query headers 50 world ≡ (ok subscription, world)
unfolding websocket continue lift authenticate authenticate_with_scopes bearer str_eq codes
    strip_prefix trim accept_outcome validate_active_session is_refused is_exactly has_expired
    is_premature any raise_as tenant_context parse_role join_memberships member_of select_context
    current execute finish read select is_whitespace trim_end trim_start
upgraded = refl

metrics_answered : metrics world ≡ (ok (codes "# TYPE apme_records gauge\napme_records 2\n"), world)
unfolding metrics continue raise_as read finish codes metrics_text decimal digits
metrics_answered = refl

metrics_example :
    (shown : Str) × (codes "# TYPE apme_records gauge\napme_records 2\n"
      ≡ codes "# TYPE apme_records gauge\napme_records " ++ shown ++ codes "\n")
    × (parse_digits 0 shown ≡ some (length (current world).cases))
metrics_example = metrics-counts world world _ metrics_answered

kept : All (IsKept render subscription) arrivals
unfolding subscription_allows
kept = (refl, (inr (refl, (2 ∷ [], refl)), tt))

complete_example :
    ((socket_loop render subscription arrivals).1 ≡ false)
    × Sent render subscription arrivals (socket_loop render subscription arrivals).0
complete_example = socket_loop_complete render subscription arrivals kept

broadcast :
    (event : TenantEvent)
    → Memᴰ (delivered event, true) arrivals
    → Memᴰ event (respond_all lib codecs state version requests world).published
broadcast event m = elim (mem_cases m) [
  | inl e ↦ cc
  | inr n ↦ elim (mem_cases n) [ inl e ↦ rw all_created (Memᴰ.head cc) | inr k ↦ elim k [ ] ]
]

sent : Memᴰ (text (2 ∷ [])) (socket_loop render subscription arrivals).0
unfolding socket_loop react subscription_allows
sent = Memᴰ.tail (Memᴰ.head refl)

texts_example :
    (event : TenantEvent) × (reader : VerifiedSubject) × (context : TenantContext) × IsRequested lib
      codecs state version world requests event
    × IsAuthenticated codecs state.auth headers (cases_read_scope ∷ []) 50 reader
    × IsGranted reader world context
    × (context.tenant_id ≡ query.tenant_id)
    × IsSubscribed (record { tenant_id = query.tenant_id; case_id = query.case_id }) event
    × (render event ≡ some (2 ∷ []))
texts_example =
    socket_texts-IsRequested lib codecs state version requests query headers 50 render arrivals
      world world world subscription (2 ∷ []) refl upgraded broadcast sent

abbrev pub env : Environment
env name =
    if str_eq name (codes "CORS_ALLOWED_ORIGINS")
    then some (codes "https://a")
    else some (codes "1")

abbrev layer : CorsLayer
layer = layer_for (codes "https://a" ∷ [])

layered : cors_layer_from_env codecs env ≡ ok layer
unfolding cors_layer_from_env str_eq codes cors_layer parse_allowed_origins candidates select split
    trim collect_map parse_origin authority_of strip_prefix is_not_authority contains_char
layered = refl

covers_example :
    (raw : Str) × (origins_or_default (env (codes "CORS_ALLOWED_ORIGINS")) (env (codes "APP_ENV"))
      ≡ ok raw)
    × (layer.allow_origin ≢ [])
    × Pairs (IsOrigin codecs) (candidates raw) layer.allow_origin
    × All (λ route. Memᴰ route.method layer.allow_methods) routes
    × All
        (λ name. Memᴰ name layer.allow_headers)
        (authorization ∷ tenant_header ∷ idempotency_header ∷ [])
covers_example = cors_layer_from_env-covers codecs env layer layered

abbrev pub platform : Platform
platform = record {
  tcp_transport = true;
  nats_transport = false;
  sends = λ logger sent. true;
  shared_auth = λ settings. some remote;
  connect_pool = λ url. ok pool;
  codecs = codecs;
  listens = λ address. true;
  rustls = tls;
  broker = record {
    load_credentials = λ path. none;
    connect = λ credentials url. none;
    get_stream = λ name. none;
    get_consumer = λ stream name. none;
  };
  is_socket_address = λ address. true;
}

abbrev pub app : App
app = record {
  state = record {
    auth = record { remote = remote; issuer = codes "1"; audience = codes "1" };
    cases = record { pool = pool };
  };
  cors = layer;
  transports = record {
    tcp = some (record {
      tls = record {
        certificates = codes "1" ∷ [];
        private_key = codes "1";
        roots = codes "1" ∷ [];
      };
      config = record {
        bind = codes "1";
        certificate_path = codes "1";
        private_key_path = codes "1";
        client_ca_path = codes "1";
        max_connections = 1;
        max_requests_per_connection = 1;
        idle_seconds = 1;
      };
      permits = 1;
      handshaking = 0;
      connected = 0;
      returned = none;
    });
    nats = none;
  };
  address = codes "1";
}

pub started : start platform env world ≡ (ok app, world)
unfolding start continue lift required_env setting str_eq codes trim raise_as execute
    cors_layer_from_env cors_layer parse_allowed_origins candidates select split authority_of
    eq_ignore_ascii_case is_not_authority parse_origin to_ascii_lowercase current finish all any
    collect_map bind_address start_optional_transports contains_char is_whitespace len strip_prefix
    trim_end trim_start bind bounded_env config_from_env enabled parse_digits parse_usize
    required_path load_tls_config Authentication.from_env CaseStore.from_env CaseStore.migrate
    init_ores_logger
started = refl

start_example : IsReady platform env world world app
start_example = start-IsReady platform env world world app started
