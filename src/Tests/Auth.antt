-- ===== src/Tests/Auth.antt =====
-- Authentication on concrete requests.
use apme_api.Prelude.{◌≡◌, refl, ◌≢◌, ◌↔◌, ◌⊎◌, true, false, none, some, any, [], ◌∷◌, ok, err}
use apme_api.Text.{Str, codes, trim, trim_start, trim_end, is_whitespace, strip_prefix, str_eq}
use apme_api.Http.{no_headers}
use apme_api.Auth.Session.{
  unauthorized, forbidden, degraded, cases_read_scope, Identity, is_exactly, has_expired,
  is_premature, is_refused, validate_active_session,
}
use apme_api.Auth.Session.Active.{IsLiveSession, validate_active_session_iff}
use apme_api.Auth.Service.{
  Authority, authenticated, shared_auth, other_authority, degraded_outcome, bearer, accept_outcome,
  authenticate_with_scopes, AuthService,
}
use apme_api.Auth.Service.Outcomes.{
  IsAuthenticated, authenticate_with_scopes_iff, authenticate_forbidden_iff,
  authenticate_degraded_iff,
}
use apme_api.Tests.Fixture.{codecs, remote, auth, subject, headers, identity, introspection}

validate_active_session_example :
    (validate_active_session remote.has_scope identity introspection
        (codes "i")
        (codes "a")
        (cases_read_scope ∷ [])
        50
      ≡ ok subject)
    ↔ ((identity.session_id ≡ some subject.session_id)
        × (subject.session_id ≢ [])
        × (subject.shared_user_id ≡ identity.shared_user_id)
        × IsLiveSession remote.has_scope identity subject.session_id introspection
            (codes "i")
            (codes "a")
            (cases_read_scope ∷ [])
            50)
validate_active_session_example =
    validate_active_session_iff remote.has_scope identity introspection (codes "i") (codes "a")
      (cases_read_scope ∷ []) 50 subject

authenticate_with_scopes_example :
    (authenticate_with_scopes codecs auth headers (cases_read_scope ∷ []) 50 ≡ ok subject)
    ↔ IsAuthenticated codecs auth headers (cases_read_scope ∷ []) 50 subject
authenticate_with_scopes_example =
    authenticate_with_scopes_iff codecs auth headers (cases_read_scope ∷ []) 50 subject

-- Every identity is one of a sandbox.
abbrev sandbox : AuthService
sandbox = record auth { remote = record remote { is_sandboxed = λ who. true } }

authenticate_forbidden_example :
    (authenticate_with_scopes codecs sandbox headers (cases_read_scope ∷ []) 50 ≡ err forbidden) ↔ (
      (token : Str) × (who : Identity) × (authority : Authority) × (bearer codecs headers
        ≡ some token)
      × (sandbox.remote.check headers ≡ authenticated who authority)
      × ((authority ≡ other_authority) ⊎ (sandbox.remote.is_sandboxed who ≡ true)))
authenticate_forbidden_example =
    authenticate_forbidden_iff codecs sandbox headers (cases_read_scope ∷ []) 50

refuses_sandbox :
    authenticate_with_scopes codecs sandbox headers (cases_read_scope ∷ []) 50 ≡ err forbidden
unfolding authenticate_with_scopes accept_outcome bearer trim trim_start trim_end is_whitespace
    strip_prefix str_eq codes
refuses_sandbox = refl

-- No introspection is answered.
abbrev silent : AuthService
silent = record auth { remote = record remote { introspect = λ token audience scopes. none } }

authenticate_degraded_example :
    (authenticate_with_scopes codecs silent headers (cases_read_scope ∷ []) 50 ≡ err degraded) ↔ (
      (token : Str) × (bearer codecs headers ≡ some token)
      × ((silent.remote.check headers ≡ degraded_outcome)
          ⊎ ((who : Identity) × (silent.remote.check headers ≡ authenticated who shared_auth)
              × (silent.remote.is_sandboxed who ≡ false)
              × (silent.remote.introspect token silent.audience (cases_read_scope ∷ []) ≡ none))))
authenticate_degraded_example =
    authenticate_degraded_iff codecs silent headers (cases_read_scope ∷ []) 50

is_degraded :
    authenticate_with_scopes codecs silent headers (cases_read_scope ∷ []) 50 ≡ err degraded
unfolding authenticate_with_scopes accept_outcome bearer trim trim_start trim_end is_whitespace
    strip_prefix str_eq codes
is_degraded = refl

-- The request of the fixture authenticates.
authenticates : authenticate_with_scopes codecs auth headers (cases_read_scope ∷ []) 50 ≡ ok subject
unfolding authenticate_with_scopes accept_outcome bearer trim trim_start trim_end is_whitespace
    strip_prefix str_eq codes is_exactly has_expired is_premature is_refused validate_active_session
    any
authenticates = refl

-- A session is over at the second in which it expires.
expires :
    authenticate_with_scopes codecs auth headers (cases_read_scope ∷ []) 100 ≡ err unauthorized
unfolding authenticate_with_scopes accept_outcome bearer trim trim_start trim_end is_whitespace
    strip_prefix str_eq codes is_exactly has_expired is_premature is_refused validate_active_session
    any
expires = refl

no_bearer : authenticate_with_scopes codecs auth no_headers [] 50 ≡ err unauthorized
unfolding authenticate_with_scopes bearer
no_bearer = refl
