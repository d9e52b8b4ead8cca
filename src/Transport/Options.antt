-- ===== src/Transport/Options.antt =====
-- The configuration of the mTLS listener: `tcp::Config::from_env`.
pub mod Bounds
use apme_api.Prelude.{
  ℕ, ◌+◌, ◌-◌, ◌*◌, Bool, true, false, ◌&&◌, Option, none, some, bind_some, Result, ok, err,
  and_then, ok_or, ensure, ltb, leb, ◌==◌, List, [], ◌∷◌, if◌then◌else◌,
}
use apme_api.Text.{Str, codes}
use apme_api.Settings.{Environment, setting}

pub record Config : Type 0 where
  pub bind : Str
  pub certificate_path : Str
  pub private_key_path : Str
  pub client_ca_path : Str
  pub max_connections : ℕ
  pub max_requests_per_connection : ℕ
  pub idle_seconds : ℕ

-- The `anyhow` errors, by the variable that they name.
pub data OptionError : Type 0 where
  required : Str → OptionError
  not_an_integer : Str → OptionError
  out_of_bounds : Str → OptionError

unfoldable pub parse_digits : ℕ → Str → Option ℕ
parse_digits value [] = some value
parse_digits value (c ∷ s) =
    let rest = parse_digits (value * 10 + (c - b'0')) s in
    if leb b'0' c && leb c b'9' then rest else none

-- A sign may stand in front of the digits.
abbrev pub unsigned : Str → Str
unsigned [] = []
unsigned (c ∷ s) = if c == b'+' then s else c ∷ s

abbrev parse_unsigned : Str → Option ℕ
parse_unsigned [] = none
parse_unsigned (c ∷ s) = parse_digits 0 (c ∷ s)

-- `str::parse::<usize>` where `usize` has 64 bits: below 2 to the 64th.
unfoldable pub parse_usize : Str → Option ℕ
parse_usize s =
    bind_some (parse_unsigned (unsigned s))
      λ value. if ltb value 18446744073709551616 then some value else none

abbrev pub value_or : Str → Option Str → ℕ → Result OptionError ℕ
value_or name none default = ok default
value_or name (some text) default = ok_or (parse_usize text) (not_an_integer name)

unfoldable pub bounded_env : Environment → Str → ℕ → ℕ → ℕ → Result OptionError ℕ
bounded_env env name default minimum maximum =
    and_then (value_or name (setting env name) default) λ value.
      and_then (ensure (leb minimum value && leb value maximum) (out_of_bounds name)) λ _. ok value

unfoldable pub required_path : Environment → Str → Result OptionError Str
required_path env name = ok_or (setting env name) (required name)

unfoldable pub enabled : Environment → Str → Result OptionError Config
enabled env bind = and_then (required_path env (codes "APME_API_TCP_TLS_CERT_FILE")) λ certificate.
    and_then (required_path env (codes "APME_API_TCP_TLS_KEY_FILE")) λ key.
      and_then (required_path env (codes "APME_API_TCP_CLIENT_CA_FILE")) λ client_ca.
        and_then (bounded_env env (codes "APME_API_TCP_MAX_CONNECTIONS") 128 1 4096) λ connections.
          and_then (bounded_env env (codes "APME_API_TCP_MAX_REQUESTS_PER_CONNECTION") 64 1 4096)
            λ requests.
              and_then (bounded_env env (codes "APME_API_TCP_IDLE_TIMEOUT_SECONDS") 15 1 300)
                λ idle. ok (record {
                  bind = bind;
                  certificate_path = certificate;
                  private_key_path = key;
                  client_ca_path = client_ca;
                  max_connections = connections;
                  max_requests_per_connection = requests;
                  idle_seconds = idle;
                })

abbrev if_enabled : Environment → Option Str → Result OptionError (Option Config)
if_enabled env none = ok none
if_enabled env (some bind) = and_then (enabled env bind) λ config. ok (some config)

-- Without an address the listener is off.
unfoldable pub config_from_env : Environment → Result OptionError (Option Config)
config_from_env env = if_enabled env (setting env (codes "APME_API_TCP_BIND"))
