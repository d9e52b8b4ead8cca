-- ===== src/Transport/Nats/Options.antt =====
-- The configuration of the worker: `nats::Config`.
pub mod Secure
use apme_api.Prelude.{
  ℕ, Bool, not, ◌&&◌, ◌||◌, Option, none, some, Result, ok, ok_or, ensure, leb, ◌==◌, all, List, [],
  ◌∷◌,
}
use apme_api.Prelude.Try.{◌>>=◌, ◌>>◌}
use apme_api.Text.{Str, codes, is_empty, len, strip_prefix, split, contains_char}
use apme_api.Settings.{Environment, setting}

pub record Config : Type 0 where
  pub url : Str
  pub credentials_path : Str
  pub request_stream : Str
  pub response_stream : Str
  pub consumer : Str

-- The `anyhow` errors of the configuration.
pub data ConfigError : Type 0 where
  required : Str → ConfigError
  not_tls embedded_credentials invalid_name : ConfigError

-- `byte.is_ascii_alphanumeric() || matches!(byte, b'_' | b'-')`: no byte of a scalar value above
-- ASCII passes, so the test goes by scalar values.
unfoldable pub is_topology_char : ℕ → Bool
is_topology_char c =
    (leb b'0' c && leb c b'9')
    || ((leb b'A' c && leb c b'Z') || ((leb b'a' c && leb c b'z') || (c == b'_' || c == b'-')))

unfoldable pub safe_topology_name : Str → Bool
safe_topology_name value =
    not (is_empty value) && (leb (len value) 128 && all is_topology_char value)

abbrev pub first_piece : List Str → Str
first_piece [] = []
first_piece (piece ∷ _) = piece

-- `rest.split('/').next().unwrap_or_default()`
unfoldable pub authority_of_rest : Str → Str
authority_of_rest rest = first_piece (split rest b'/')

unfoldable pub validate : Config → Result ConfigError (Unit {0})
validate self = do
  rest ← ok_or (strip_prefix self.url (codes "tls://")) not_tls
  ensure
      (not (is_empty (authority_of_rest rest)) && not (contains_char (authority_of_rest rest) b'@'))
      embedded_credentials
  ensure (safe_topology_name self.request_stream) invalid_name
  ensure (safe_topology_name self.response_stream) invalid_name
  ensure (safe_topology_name self.consumer) invalid_name

abbrev pub or_default : Option Str → Str → Str
or_default none text = text
or_default (some value) text = value

unfoldable pub with_url : Environment → Str → Result ConfigError Config
with_url env url = do
  credentials ←
      ok_or (setting env (codes "APME_NATS_CREDENTIALS_FILE"))
        (required (codes "APME_NATS_CREDENTIALS_FILE"))
  let config : Config = record {
    url = url;
    credentials_path = credentials;
    request_stream =
        or_default (setting env (codes "APME_NATS_REQUEST_STREAM")) (codes "APME_STATUS_OUTBOX");
    response_stream =
        or_default (setting env (codes "APME_NATS_RESPONSE_STREAM")) (codes "APME_STATUS_INBOX");
    consumer = or_default (setting env (codes "APME_NATS_CONSUMER")) (codes "apme-api-status");
  }
  validate config
  ok config

abbrev if_configured : Environment → Option Str → Result ConfigError (Option Config)
if_configured env none = ok none
if_configured env (some url) = do config ← with_url env url; ok (some config)

-- Without a server the worker is off.
unfoldable pub config_from_env : Environment → Result ConfigError (Option Config)
config_from_env env = if_configured env (setting env (codes "APME_NATS_URL"))
