-- ===== src/Cases/Errors.antt =====
-- `CaseServiceError`, `CaseConfigError` and the reading of procedure errors.
pub mod Markers
use apme_api.Prelude.{Bool, if◌then◌else◌}
use apme_api.Text.{Str, codes, contains}
use apme_api.Database.{SqlError, database, row_not_found, other}

pub data CaseServiceError : Type 0 where
  not_authorized not_found idempotency_conflict stale_version : CaseServiceError
  invalid_transition key_version_rollback : CaseServiceError
  validation : Str → CaseServiceError
  storage : SqlError → CaseServiceError

pub data CaseConfigError : Type 0 where
  missing_database_url : CaseConfigError
  connect : SqlError → CaseConfigError

-- `as_database_error().map(message).unwrap_or_default()`.
unfoldable pub message_of : SqlError → Str
unfolding codes
message_of (database message) = message
message_of row_not_found = codes ""
message_of (other _) = codes ""

unfoldable pub map_sql_error : SqlError → CaseServiceError
unfolding message_of
map_sql_error error =
    let message = message_of error in
    if contains message (codes "APME_NOT_AUTHORIZED")
    then not_authorized
    else if contains message (codes "APME_CASE_NOT_FOUND")
    then not_found
    else if contains message (codes "APME_IDEMPOTENCY_CONFLICT")
    then idempotency_conflict
    else if contains message (codes "APME_STALE_VERSION")
    then stale_version
    else if contains message (codes "APME_INVALID_TRANSITION")
    then invalid_transition
    else if contains message (codes "APME_KEY_VERSION_ROLLBACK")
    then key_version_rollback
    else if contains message (codes "APME_CASE_OBJECT_NOT_FOUND")
    then not_found
    else storage error
