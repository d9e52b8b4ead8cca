-- ===== src/Server/Router/Silence.antt =====
-- The endpoints that only read publish nothing.
use apme_api.Prelude.{ℕ, ◌∙◌, [], ◌∷◌}
use apme_api.Domain.{Uuid, Interfaces}
use apme_api.Database.{World}
use apme_api.Database.Silence.{
  IsSilent, continue-IsSilent, lift-IsSilent, raise_as-IsSilent, finish-IsSilent, read-IsSilent,
}
use apme_api.Http.{HeaderMap, Codecs}
use apme_api.Auth.Session.{cases_read_scope}
use apme_api.Cases.Lookup.Silence.{
  tenant_context-IsSilent, get_case-IsSilent, list_cases-IsSilent, record_access-IsSilent,
}
use apme_api.Api.Errors.{ApiError}
use apme_api.Api.Access.{AppState, authorized_tenant}
use apme_api.Api.Access.Membership.{authorized_tenant_with_scopes-IsSilent}
use apme_api.Api.Handlers.{Clock, list_cases, get_case}
use apme_api.Api.Sockets.{WebSocketQuery, websocket}
use apme_api.Server.Pages.{metrics}

pub metrics-IsSilent : (w : World) → IsSilent w.published (metrics w)
unfolding metrics
metrics-IsSilent w =
    continue-IsSilent _ _ _ (raise_as-IsSilent _ _ _ w (read-IsSilent _ w))
      λ count u e. finish-IsSilent ApiError _ u ∙ e

module _ (codecs : Codecs) (state : AppState) (headers : HeaderMap) where
  authorized_tenant-IsSilent :
      (now : ℕ) (w : World) → IsSilent w.published (authorized_tenant codecs state headers now w)
  unfolding authorized_tenant
  authorized_tenant-IsSilent now w =
      authorized_tenant_with_scopes-IsSilent codecs state headers (cases_read_scope ∷ []) now w

  pub websocket-IsSilent :
      (query : WebSocketQuery) (now : ℕ) (w : World)
      → IsSilent w.published (websocket codecs state query headers now w)
  unfolding websocket
  websocket-IsSilent query now w = continue-IsSilent _ _ _ (lift-IsSilent _ w) λ subject u e.
      continue-IsSilent _ _ _
        (raise_as-IsSilent _ _ _ u (tenant_context-IsSilent subject query.tenant_id u) ∙ e)
        λ context u1 e1. finish-IsSilent ApiError _ u1 ∙ e1

  module _ (lib : Interfaces) (clock : Clock) where
    pub list_cases_handler-IsSilent :
        (w : World) → IsSilent w.published (list_cases lib codecs state clock headers w)
    unfolding list_cases
    list_cases_handler-IsSilent w =
        continue-IsSilent _ _ _ (authorized_tenant-IsSilent clock.seconds w)
          λ (subject, context) u e. raise_as-IsSilent _ _ _ u (list_cases-IsSilent context u) ∙ e

    pub get_case_handler-IsSilent :
        (id : Uuid) (w : World)
        → IsSilent w.published (get_case lib codecs state clock id headers w)
    unfolding get_case
    get_case_handler-IsSilent id w =
        continue-IsSilent _ _ _ (authorized_tenant-IsSilent clock.seconds w)
          λ (subject, context) u e.
            continue-IsSilent _ _ _ (raise_as-IsSilent _ _ _ u (get_case-IsSilent context id u) ∙ e)
              λ case u1 e1.
                continue-IsSilent _ _ _
                  (raise_as-IsSilent _ _ _ u1
                      (record_access-IsSilent state.cases context subject case.id clock.now u1)
                    ∙ e1)
                  λ done u2 e2. finish-IsSilent ApiError _ u2 ∙ e2
