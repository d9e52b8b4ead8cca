-- ===== src/Cases/Names.antt =====
-- The spelling of statuses, retention classes and roles in persistence.
pub mod RoundTrip
use apme_api.Prelude.{Option, none, some, Result, ok, err, if◌then◌else◌}
use apme_api.Text.{Str, codes, str_eq}
use apme_api.Domain.{
  CaseStatus, intake, collecting_documents, review, submitted, completed, closed, RetentionClass,
  standard, extended, legal_hold_eligible, TenantRole, viewer, agent, administrator,
}
use apme_api.Cases.Errors.{CaseServiceError, validation, not_authorized}

unfoldable pub parse_status : Str → Result CaseServiceError CaseStatus
parse_status value =
    if str_eq value (codes "intake")
    then ok intake
    else if str_eq value (codes "collecting_documents")
    then ok collecting_documents
    else if str_eq value (codes "review")
    then ok review
    else if str_eq value (codes "submitted")
    then ok submitted
    else if str_eq value (codes "completed")
    then ok completed
    else if str_eq value (codes "closed")
    then ok closed
    else err (validation (codes "unknown persisted case status"))

unfoldable pub status_name : CaseStatus → Str
status_name intake = codes "intake"
status_name collecting_documents = codes "collecting_documents"
status_name review = codes "review"
status_name submitted = codes "submitted"
status_name completed = codes "completed"
status_name closed = codes "closed"

unfoldable pub parse_retention : Str → Result CaseServiceError RetentionClass
parse_retention value =
    if str_eq value (codes "standard")
    then ok standard
    else if str_eq value (codes "extended")
    then ok extended
    else if str_eq value (codes "legal_hold_eligible")
    then ok legal_hold_eligible
    else err (validation (codes "unknown persisted retention class"))

unfoldable pub retention_name : RetentionClass → Str
retention_name standard = codes "standard"
retention_name extended = codes "extended"
retention_name legal_hold_eligible = codes "legal_hold_eligible"

-- The `match` on the membership's role in `tenant_context`.
unfoldable pub parse_role : Str → Result CaseServiceError TenantRole
parse_role value =
    if str_eq value (codes "viewer")
    then ok viewer
    else if str_eq value (codes "agent")
    then ok agent
    else if str_eq value (codes "administrator")
    then ok administrator
    else err not_authorized
