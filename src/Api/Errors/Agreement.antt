-- ===== src/Api/Errors/Agreement.antt =====
-- The code of an error and the response that it becomes.
use apme_api.Prelude.{◌≡◌, refl, ◌↔◌, ◌⊎◌, Option, none, some, arith}
use apme_api.Text.{Str}
use apme_api.Auth.Session.{unauthorized, forbidden, degraded}
use apme_api.Cases.Errors.{
  CaseServiceError, not_authorized, not_found, idempotency_conflict, stale_version,
  invalid_transition, key_version_rollback, storage,
}
use apme_api.Database.{SqlError}
use apme_api.Api.Errors.{ApiError, authentication, cases, validation, code, into_response}

-- The message of a validation failure, which alone is shown to the client.
abbrev pub shown : ApiError → Option Str
shown (cases (CaseServiceError.validation message)) = some message
shown (validation message) = some message
shown _ = none

-- The body's `error` is the code that the TCP transport sends for the same failure, and the body has
-- a message for validation failures alone, which are those of status 422.
into_response_lem :
    (e : ApiError)
    → ((into_response e).error ≡ code e)
      × ((into_response e).message ≡ shown e)
      × (((into_response e).status ≡ 422) ↔ ((message : Str) × (shown e ≡ some message)))
unfolding into_response code
into_response_lem (authentication unauthorized) =
    (refl, refl, (λ h. absurd (omega arith), λ (m, h). cc))
into_response_lem (authentication forbidden) =
    (refl, refl, (λ h. absurd (omega arith), λ (m, h). cc))
into_response_lem (authentication degraded) =
    (refl, refl, (λ h. absurd (omega arith), λ (m, h). cc))
into_response_lem (cases (CaseServiceError.validation m)) =
    (refl, refl, (λ h. (m, refl), λ k. refl))
into_response_lem (validation m) = (refl, refl, (λ h. (m, refl), λ k. refl))
into_response_lem (cases not_authorized) = (refl, refl, (λ h. absurd (omega arith), λ (m, h). cc))
into_response_lem (cases _) = (refl, refl, (λ h. absurd (omega arith), λ (m, h). cc))

-- Each status other than 422 stands for exactly the failures listed here.
into_response_status :
    (e : ApiError)
    → let status = (into_response e).status in
      ((status ≡ 401) ↔ (e ≡ authentication unauthorized))
      × ((status ≡ 403) ↔ ((e ≡ authentication forbidden) ⊎ (e ≡ cases not_authorized)))
      × ((status ≡ 404) ↔ (e ≡ cases not_found))
      × ((status ≡ 409) ↔ (
          (e ≡ cases idempotency_conflict)
          ⊎ (e ≡ cases stale_version)
          ⊎ (e ≡ cases invalid_transition)
          ⊎ (e ≡ cases key_version_rollback)))
      × ((status ≡ 503)
          ↔ ((e ≡ authentication degraded) ⊎ ((s : SqlError) × (e ≡ cases (storage s)))))
unfolding into_response
into_response_status (authentication unauthorized) = ground arith
into_response_status (authentication forbidden) = ground arith
into_response_status (authentication degraded) = ground arith
into_response_status (validation m) = ground arith
into_response_status (cases not_authorized) = ground arith
into_response_status (cases _) = ground arith
