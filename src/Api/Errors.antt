-- ===== src/Api/Errors.antt =====
-- `ApiError`, its code, and the response that it becomes.
pub mod Agreement
use apme_api.Prelude.{ℕ, Option, none, some}
use apme_api.Text.{Str, codes}
use apme_api.Auth.Session.{AuthFailure, unauthorized, forbidden, degraded}
use apme_api.Cases.Errors.{
  CaseServiceError, not_authorized, not_found, idempotency_conflict, stale_version,
  invalid_transition, key_version_rollback, storage,
}

pub data ApiError : Type 0 where
  authentication : AuthFailure → ApiError
  cases : CaseServiceError → ApiError
  validation : Str → ApiError

unfoldable pub code : ApiError → Str
unfolding codes
code (authentication unauthorized) = codes "unauthorized"
code (authentication forbidden) = codes "forbidden"
code (cases not_authorized) = codes "forbidden"
code (authentication degraded) = codes "temporarily_unavailable"
code (cases (storage _)) = codes "temporarily_unavailable"
code (cases not_found) = codes "not_found"
code (cases idempotency_conflict) = codes "idempotency_key_reused"
code (cases stale_version) = codes "stale_version"
code (cases invalid_transition) = codes "invalid_transition"
code (cases key_version_rollback) = codes "key_version_rollback"
code (cases (CaseServiceError.validation _)) = codes "validation"
code (validation _) = codes "validation"

-- The status, and the `error` and `message` members of the JSON body.
pub record ErrorResponse : Type 0 where
  pub status : ℕ
  pub error : Str
  pub message : Option Str

abbrev answer : ℕ → Str → Option Str → ErrorResponse
answer status error message = record { status = status; error = error; message = message }

unfoldable pub into_response : ApiError → ErrorResponse
unfolding codes
into_response (authentication unauthorized) = answer 401 (codes "unauthorized") none
into_response (authentication forbidden) = answer 403 (codes "forbidden") none
into_response (cases not_authorized) = answer 403 (codes "forbidden") none
into_response (authentication degraded) = answer 503 (codes "temporarily_unavailable") none
into_response (cases (storage _)) = answer 503 (codes "temporarily_unavailable") none
into_response (cases not_found) = answer 404 (codes "not_found") none
into_response (cases idempotency_conflict) = answer 409 (codes "idempotency_key_reused") none
into_response (cases stale_version) = answer 409 (codes "stale_version") none
into_response (cases invalid_transition) = answer 409 (codes "invalid_transition") none
into_response (cases key_version_rollback) = answer 409 (codes "key_version_rollback") none
into_response (cases (CaseServiceError.validation message)) =
    answer 422 (codes "validation") (some message)
into_response (validation message) = answer 422 (codes "validation") (some message)
