-- ===== src/Tests/Transport.antt =====
-- The mTLS listener on concrete frames.
use apme_api.Prelude.{◌≤◌, ◌≡◌, refl, ◌⊎◌, some, List, [], ◌∷◌, length, ok, All}
use apme_api.Text.{Str, codes, trim, trim_start, trim_end, is_whitespace}
use apme_api.Domain.{Uuid}
use apme_api.Settings.{Environment, setting}
use apme_api.Transport.Options.{
  Config, parse_digits, parse_usize, bounded_env, required_path, enabled, config_from_env,
}
use apme_api.Transport.Tcp.{
  list_cases, FrameRequest, Wire, encode_failure, execute, frame, end_of_stream, delivered,
  Exchange, serve_connection,
}
use apme_api.Transport.Tcp.Authority.{IsListing, execute-IsListing}
use apme_api.Transport.Tcp.Frames.{IsSendable, serve_connection-IsSendable}
use apme_api.Tests.Fixture.{codecs, state, tenant, world}

abbrev request : FrameRequest
request = record {
  request_id = 3;
  tenant_id = tenant;
  bearer_token = codes "t";
  operation = list_cases;
}

abbrev wire : Wire
wire = record {
  from_slice = λ bytes. some request;
  to_vec = λ response. some (response.request_id ∷ []);
}

execute_example :
    ((id : Uuid) × (error : Str) × ((execute wire codecs state 50 (codes "{}") world).0
        ≡ encode_failure wire id error))
    ⊎ IsListing wire codecs state 50
        (codes "{}")
        world
        (execute wire codecs state 50 (codes "{}") world).0
execute_example = execute-IsListing wire codecs state 50 (codes "{}") world

abbrev exchanges : List Exchange
exchanges =
    record { incoming = frame (codes "{}"); seconds = 50; delivery = delivered }
    ∷ record { incoming = end_of_stream; seconds = 51; delivery = delivered }
    ∷ []

serve_connection_example :
    let responses = (serve_connection wire codecs state 2 exchanges world).0 in
    (length responses ≤ 2) × All IsSendable responses
serve_connection_example = serve_connection-IsSendable wire codecs state 2 exchanges world

-- Every variable holds the same text, which is also the number 1.
abbrev env : Environment
env name = some (codes "1")

abbrev config : Config
config = record {
  bind = codes "1";
  certificate_path = codes "1";
  private_key_path = codes "1";
  client_ca_path = codes "1";
  max_connections = 1;
  max_requests_per_connection = 1;
  idle_seconds = 1;
}

configured : config_from_env env ≡ ok (some config)
unfolding config_from_env setting trim trim_start trim_end is_whitespace codes enabled required_path
    bounded_env parse_usize parse_digits
configured = refl
