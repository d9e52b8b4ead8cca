-- ===== src/Transport/Options/Bounds.antt =====
-- Which configurations are accepted.
use apme_api.Prelude.{
  ℕ, ◌≤◌, ◌≡◌, ◌&&◌, leb, some, Result, ok, arith, and_then-eq-ok, Option-cases, inl, inr, ensure,
  ensure-eq-ok,
}
use apme_api.Text.{Str, codes}
use apme_api.Settings.{Environment, setting}
use apme_api.Transport.Options.{
  Config, OptionError, out_of_bounds, value_or, bounded_env, required_path, enabled,
  config_from_env,
}

bounded_env_lem :
    (env : Environment) (name : Str) (default minimum maximum : ℕ) {value : ℕ}
    → bounded_env env name default minimum maximum ≡ ok value
    → (minimum ≤ value) × (value ≤ maximum)
unfolding bounded_env
bounded_env_lem env name default minimum maximum h =
    let (v, e, h1) = and_then-eq-ok (value_or name (setting env name) default) _ h in
    let (_, inside, h2) =
      and_then-eq-ok (ensure (leb minimum v && leb v maximum) (out_of_bounds name)) _ h1 in
    ground (arith, ensure-eq-ok (leb minimum v && leb v maximum) _ inside, h2)

required_path_lem :
    (env : Environment) (name : Str) {path : Str}
    → required_path env name ≡ ok path
    → setting env name ≡ some path
unfolding required_path
required_path_lem env name h = elim (Option-cases (setting env name)) [
  | inl e ↦ cc (rw e at h)
  | inr (p, e) ↦ ground arith
]

-- The listener is on: it has an address and the three files of mutual TLS, between 1 and 4096
-- connections and requests on each, and between 1 and 300 idle seconds.
pub record IsEnabled (env : Environment) (config : Config) : Type 0 where
  pub address : setting env (codes "APME_API_TCP_BIND") ≡ some config.bind
  pub certificate : setting env (codes "APME_API_TCP_TLS_CERT_FILE") ≡ some config.certificate_path
  pub key : setting env (codes "APME_API_TCP_TLS_KEY_FILE") ≡ some config.private_key_path
  pub client_ca : setting env (codes "APME_API_TCP_CLIENT_CA_FILE") ≡ some config.client_ca_path
  pub connections : (1 ≤ config.max_connections) × (config.max_connections ≤ 4096)
  pub requests :
      (1 ≤ config.max_requests_per_connection) × (config.max_requests_per_connection ≤ 4096)
  pub idle : (1 ≤ config.idle_seconds) × (config.idle_seconds ≤ 300)

enabled-IsEnabled :
    (env : Environment) (bind : Str) (config : Config)
    → setting env (codes "APME_API_TCP_BIND") ≡ some bind
    → enabled env bind ≡ ok config
    → IsEnabled env config
unfolding enabled
enabled-IsEnabled env bind config b h =
    let (certificate, e1, h1) = and_then-eq-ok (required_path env _) _ h in
    let (key, e2, h2) = and_then-eq-ok (required_path env _) _ h1 in
    let (client_ca, e3, h3) = and_then-eq-ok (required_path env _) _ h2 in
    let (connections, e4, h4) = and_then-eq-ok (bounded_env env _ _ _ _) _ h3 in
    let (requests, e5, h5) = and_then-eq-ok (bounded_env env _ _ _ _) _ h4 in
    let (idle, e6, h6) = and_then-eq-ok (bounded_env env _ _ _ _) _ h5 in
    let bounds4 = bounded_env_lem env _ _ _ _ e4 in
    let bounds5 = bounded_env_lem env _ _ _ _ e5 in
    let bounds6 = bounded_env_lem env _ _ _ _ e6 in
    let path1 = required_path_lem env _ e1 in
    let path2 = required_path_lem env _ e2 in
    let path3 = required_path_lem env _ e3 in
    let made : _ ≡ config = ok-injective h6 in
    rw (← made) (record {
      address = b;
      certificate = path1;
      key = path2;
      client_ca = path3;
      connections = bounds4;
      requests = bounds5;
      idle = bounds6;
    })
  where
    ok-injective : {c d : Config} → ◌≡◌ {A = Result OptionError Config} (ok c) (ok d) → c ≡ d
    ok-injective h = ground arith

-- A configuration that is accepted turns the listener on only as `IsEnabled` says.
pub config_from_env-IsEnabled :
    (env : Environment) (config : Config)
    → config_from_env env ≡ ok (some config)
    → IsEnabled env config
unfolding config_from_env
config_from_env-IsEnabled env config h =
    elim (Option-cases (setting env (codes "APME_API_TCP_BIND"))) [
      | inl e ↦ cc (rw e at h)
      | inr (bind, e) ↦
          let (c, made, h1) = and_then-eq-ok (enabled env bind) _ (rw e at h) in
          enabled-IsEnabled env bind config e (ground arith)
    ]
