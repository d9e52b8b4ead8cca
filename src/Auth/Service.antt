-- ===== src/Auth/Service.antt =====
-- `AuthService`: its configuration, the bearer, and authentication with scopes.
pub mod Outcomes
use mathlib.Core.Option
use apme_api.Prelude.{
  ℕ, ◌*◌, Bool, true, false, not, Option, none, some, bind_some, filter_some, List, [], ◌∷◌, Result,
  ok, err, and_then, ok_or, map_err, if◌then◌else◌,
}
use apme_api.Text.{Str, codes, strip_prefix, trim, is_empty}
use apme_api.Domain.{VerifiedSubject}
use apme_api.Settings.{Environment, setting}
use apme_api.Http.{HeaderMap, Codecs, authorization}
use apme_api.Auth.Session.{
  AuthFailure, unauthorized, forbidden, degraded, Identity, Introspection, cases_read_scope,
  validate_active_session,
}

pub data Authority : Type 0 where
  shared_auth other_authority : Authority

pub data AuthOutcome : Type 0 where
  authenticated : Identity → Authority → AuthOutcome
  anonymous unauthenticated degraded_outcome : AuthOutcome

-- The guard and the introspection client of the shared-auth crates, as they answer at the moment.
pub record SharedAuth : Type 0 where
  pub check : HeaderMap → AuthOutcome
  pub is_sandboxed : Identity → Bool
  pub introspect : Str → Str → List Str → Option Introspection
  pub has_scope : Introspection → Str → Bool

pub record AuthService : Type 0 where
  pub remote : SharedAuth
  pub issuer : Str
  pub audience : Str

pub data AuthConfigError : Type 0 where
  missing : Str → AuthConfigError
  invalid_client : AuthConfigError

abbrev pub max_introspection_response_bytes : ℕ
max_introspection_response_bytes = 64 * 1024

-- What `from_env` hands to `Guard::new` and `SharedAuthClient::try_new`; durations in seconds.
pub record ClientSettings : Type 0 where
  pub shared_auth_base : Str
  pub issuer : Str
  pub audience : Str
  pub supabase_url : Option Str
  pub supabase_api_key : Option Str
  pub introspect_secret : Option Str
  pub arm_timeout : ℕ
  pub supabase_project : Option Str
  pub login_url : Str
  pub race_deadline : ℕ
  pub max_response_bytes : ℕ
  pub service_credential : Str

unfoldable pub required_env : Environment → Str → Result AuthConfigError Str
required_env env name = ok_or (setting env name) (missing name)

abbrev or_else_text : Option Str → Str → Str
or_else_text none text = text
or_else_text (some value) text = value

-- The construction of the guard and of the client is a parameter; it fails where `try_new` does.
unfoldable pub from_env :
    (ClientSettings → Option SharedAuth) → Environment → Result AuthConfigError AuthService
unfolding required_env
from_env build env = and_then (required_env env (codes "SHARED_AUTH_BASE_URL")) λ base.
    and_then (required_env env (codes "SHARED_AUTH_ISSUER")) λ issuer.
      and_then (required_env env (codes "SHARED_AUTH_AUDIENCE")) λ audience.
        and_then (required_env env (codes "SHARED_AUTH_INTROSPECTION_CREDENTIAL")) λ credential.
          let login_url =
            or_else_text (env (codes "SHARED_AUTH_LOGIN_URL")) (codes "/auth/sign-in") in
          let settings : ClientSettings = record {
            shared_auth_base = base;
            issuer = issuer;
            audience = audience;
            supabase_url = none;
            supabase_api_key = none;
            introspect_secret = none;
            arm_timeout = 2;
            supabase_project = none;
            login_url = login_url;
            race_deadline = 2;
            max_response_bytes = max_introspection_response_bytes;
            service_credential = credential;
          } in
          and_then (ok_or (build settings) invalid_client)
            λ remote. ok (record { remote = remote; issuer = issuer; audience = audience })

unfoldable pub bearer : Codecs → HeaderMap → Option Str
bearer codecs headers =
    filter_some (λ token. not (is_empty token))
      (Option.map trim (
        bind_some (bind_some (headers authorization) codecs.to_str)
          λ value. strip_prefix value (codes "Bearer ")))

-- The `match` on the guard's outcome.
unfoldable pub accept_outcome : (Identity → Bool) → AuthOutcome → Result AuthFailure Identity
accept_outcome is_sandboxed (authenticated identity shared_auth) =
    if not (is_sandboxed identity) then ok identity else err forbidden
accept_outcome is_sandboxed (authenticated identity other_authority) = err forbidden
accept_outcome is_sandboxed anonymous = err unauthorized
accept_outcome is_sandboxed unauthenticated = err unauthorized
accept_outcome is_sandboxed degraded_outcome = err degraded

-- `unix_now` is `now`, in seconds.
unfoldable pub authenticate_with_scopes :
    Codecs → AuthService → HeaderMap → List Str → ℕ → Result AuthFailure VerifiedSubject
authenticate_with_scopes codecs self headers required_scopes now =
    and_then (ok_or (bearer codecs headers) unauthorized) λ token.
      and_then (accept_outcome self.remote.is_sandboxed (self.remote.check headers)) λ identity.
        and_then (ok_or (self.remote.introspect token self.audience required_scopes) degraded)
          λ introspection.
            validate_active_session self.remote.has_scope identity introspection self.issuer
              self.audience required_scopes now

unfoldable pub authenticate :
    Codecs → AuthService → HeaderMap → ℕ → Result AuthFailure VerifiedSubject
authenticate codecs self headers now =
    authenticate_with_scopes codecs self headers (cases_read_scope ∷ []) now
