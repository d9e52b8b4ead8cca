-- ===== src/Cases/Lookup.antt =====
-- The reads of `CaseService`, and the audited access.
pub mod Silence
pub mod Isolation
pub mod Listing
use apme_api.Prelude.{
  ℕ, Bool, Option, none, some, List, [], ◌∷◌, Result, ok, err, ok_or, map_err, and_then, map,
  filter_some, collect_map, not,
}
use mathlib.Core.Option
use apme_api.Prelude.Int.{ℤ}
use apme_api.Text.{Str, codes, trim, is_empty}
use apme_api.Domain.{
  Uuid, Instant, Bytes, VerifiedSubject, TenantContext, PersistedCase, EncryptedObjectReference,
  CreateCaseCommand, TransitionCaseCommand, RotateEncryptedObjectCommand, CaseMutationResult,
  CaseEventReceipt, Interfaces,
}
use apme_api.Database.{
  SqlError, EventRow, MutationRow, AuditArgs, CreateArgs, TransitionArgs, RotateArgs, Pool, World,
  Action, ◌>>=◌, ◌>>◌, lift, finish, raise_as, execute, read,
}
use apme_api.Cases.Errors.{
  CaseServiceError, not_authorized, not_found, validation, storage, map_sql_error, CaseConfigError,
  missing_database_url, connect,
}
use apme_api.Cases.Names.{parse_role, status_name, retention_name}
use apme_api.Cases.Rows.{case_from_row}
use apme_api.Cases.Guards.{
  canonical_hash, validate_idempotency_key, require_mutator, require_administrator, require_version,
}
use apme_api.Cases.Queries.{
  ContextRow, select_context, case_select_list, case_select_one, select_event,
}
use apme_api.Cases.Service.{CaseService}

-- The statements that only read need no procedure of the pool.
unfoldable pub tenant_context : VerifiedSubject → Uuid → Action CaseServiceError TenantContext
tenant_context subject tenant_id = do
  found ← raise_as storage (read (λ t. ok (select_context tenant_id subject.shared_user_id t)))
  row ← lift (ok_or found not_authorized)
  role ← lift (parse_role row.role)
  finish (record { tenant_id = tenant_id; organization_id = row.organization_id; role = role })

unfoldable pub list_cases : TenantContext → Action CaseServiceError (List PersistedCase)
list_cases context = do
  rows ← raise_as storage (read (λ t. ok (case_select_list context.tenant_id t)))
  lift (collect_map case_from_row rows)

unfoldable pub get_case : TenantContext → Uuid → Action CaseServiceError PersistedCase
get_case context case_id = do
  found ← raise_as storage (read (λ t. ok (case_select_one context.tenant_id case_id t)))
  row ← lift (ok_or found not_found)
  lift (case_from_row row)

abbrev pub access_args : TenantContext → VerifiedSubject → Uuid → Instant → AuditArgs
access_args context subject resource_id now = record {
  tenant_id = context.tenant_id;
  kind = codes "access";
  shared_user_id = subject.shared_user_id;
  resource_type = codes "case";
  resource_id = resource_id;
  at = now;
  payload = codes "{}";
}

-- `now` is `Utc::now()`.
unfoldable pub record_access :
    CaseService
    → TenantContext
    → VerifiedSubject
    → Uuid
    → Instant
    → Action CaseServiceError (Unit {0})
record_access self context subject resource_id now =
    raise_as storage
      (execute (self.pool.append_audit (access_args context subject resource_id now)))
