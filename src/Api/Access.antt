-- ===== src/Api/Access.antt =====
-- `AppState`, and what stands in front of every handler: authentication, the tenant of the request
-- and its membership.
pub mod Membership
use apme_api.Prelude.{
  ℕ, ◌*◌, Bool, not, ◌||◌, Option, none, some, bind_some, filter_some, List, [], ◌∷◌, ◌++◌, Result,
  ok, err, and_then, ok_or, map_err, ltb, any, if◌then◌else◌,
}
use mathlib.Core.Option
use apme_api.Text.{Str, codes, trim, is_empty, len, is_whitespace, is_control}
use apme_api.Domain.{Uuid, VerifiedSubject, TenantContext, Interfaces}
use apme_api.Database.{Action, ◌>>=◌, lift, finish, raise_as}
use apme_api.Http.{
  HeaderMap, Codecs, no_headers, insert_header, authorization, tenant_header, idempotency_header,
}
use apme_api.Auth.Session.{AuthFailure, unauthorized, cases_read_scope}
use apme_api.Auth.Service.{AuthService, authenticate_with_scopes}
use apme_api.Cases.Service.{CaseService}
use apme_api.Cases.Lookup.{tenant_context}
use apme_api.Api.Errors.{ApiError, authentication, cases, validation}

-- The broadcast channel of `AppState` is the world's `published`.
pub record AppState : Type 0 where
  pub auth : AuthService
  pub cases : CaseService

unfoldable pub tenant_id : Codecs → HeaderMap → Result ApiError Uuid
tenant_id codecs headers =
    ok_or (bind_some (bind_some (headers tenant_header) codecs.to_str) codecs.parse_uuid)
      (validation (codes "x-apme-tenant-id must be a UUID"))

unfoldable pub idempotency_key : Codecs → HeaderMap → Result ApiError Str
idempotency_key codecs headers =
    ok_or
      (filter_some (λ value. not (is_empty value))
        (Option.map trim (bind_some (headers idempotency_header) codecs.to_str)))
      (validation (codes "Idempotency-Key is required"))

-- `now` is the time of `unix_now`, in seconds.
unfoldable pub authorized_tenant_with_scopes :
    Codecs → AppState → HeaderMap → List Str → ℕ → Action ApiError (VerifiedSubject × TenantContext)
authorized_tenant_with_scopes codecs state headers required_scopes now = do
  subject ← lift (
      map_err authentication
        (authenticate_with_scopes codecs state.auth headers required_scopes now))
  tenant ← lift (tenant_id codecs headers)
  context ← raise_as cases (tenant_context subject tenant)
  finish (subject, context)

unfoldable pub authorized_tenant :
    Codecs → AppState → HeaderMap → ℕ → Action ApiError (VerifiedSubject × TenantContext)
authorized_tenant codecs state headers now =
    authorized_tenant_with_scopes codecs state headers (cases_read_scope ∷ []) now

abbrev pub max_token_bytes : ℕ
max_token_bytes = 16 * 1024

unfoldable pub is_malformed_token : Str → Bool
is_malformed_token token =
    is_empty token
    || (ltb max_token_bytes (len token) || (any is_whitespace token || any is_control token))

-- The headers that `authorize_token` builds for a bare token.
unfoldable pub token_headers : Codecs → Str → Result ApiError HeaderMap
token_headers codecs token =
    if is_malformed_token token
    then err (authentication unauthorized)
    else (and_then
        (ok_or (codecs.from_str (codes "Bearer " ++ token)) (authentication unauthorized))
        λ value. ok (insert_header authorization value no_headers))

unfoldable pub authorize_token :
    Codecs
    → AppState
    → Str
    → Uuid
    → List Str
    → ℕ
    → Action ApiError (VerifiedSubject × TenantContext)
authorize_token codecs state token tenant required_scopes now = do
  headers ← lift (token_headers codecs token)
  subject ← lift (
      map_err authentication
        (authenticate_with_scopes codecs state.auth headers required_scopes now))
  context ← raise_as cases (tenant_context subject tenant)
  finish (subject, context)
