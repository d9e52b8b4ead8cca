-- ===== src/Cases/Mutations.antt =====
-- The mutating operations of `CaseService`: checks, the procedure, and the reads that follow it.
pub mod Silence
pub mod Requests
pub mod Outcomes
pub mod Fresh
use apme_api.Prelude.{
  ℕ, Bool, Option, none, some, List, [], ◌∷◌, Result, ok, err, ok_or, map_err, and_then, map,
  filter_some, collect_map, not,
}
use mathlib.Core.Option
use apme_api.Prelude.Int.{ℤ}
use apme_api.Text.{Str, codes, trim, is_empty}
use apme_api.Domain.{
  Uuid, Instant, Bytes, VerifiedSubject, TenantContext, PersistedCase, EncryptedObjectReference,
  CreateCaseCommand, TransitionCaseCommand, RotateEncryptedObjectCommand, CaseMutationResult,
  CaseEventReceipt, Interfaces,
}
use apme_api.Database.{
  SqlError, EventRow, MutationRow, AuditArgs, CreateArgs, TransitionArgs, RotateArgs, Pool, World,
  Action, ◌>>=◌, ◌>>◌, lift, finish, raise_as, execute, read,
}
use apme_api.Cases.Errors.{
  CaseServiceError, not_authorized, not_found, validation, storage, map_sql_error, CaseConfigError,
  missing_database_url, connect,
}
use apme_api.Cases.Names.{parse_role, status_name, retention_name}
use apme_api.Cases.Rows.{case_from_row}
use apme_api.Cases.Guards.{
  canonical_hash, validate_idempotency_key, require_mutator, require_administrator, require_version,
}
use apme_api.Cases.Queries.{
  ContextRow, select_context, case_select_list, case_select_one, select_event,
}
use apme_api.Cases.Service.{CaseService}
use apme_api.Cases.Lookup.{get_case}

abbrev receipt : MutationRow → EventRow → CaseEventReceipt
receipt mutation event = record {
  event_id = mutation.event_id;
  tenant_id = event.tenant_id;
  case_id = event.case_id;
  case_version = event.case_version;
  event_type = event.event_type;
  occurred_at = event.occurred_at;
  event_hash = mutation.event_hash;
}

unfoldable pub mutation_result :
    TenantContext → MutationRow → Action CaseServiceError CaseMutationResult
mutation_result context mutation = do
  case ← get_case context mutation.case_id
  event ← raise_as storage (read (select_event context.tenant_id mutation.event_id))
  finish (record { case = case; event = receipt mutation event; replayed = mutation.replayed })

abbrev pub create_args :
    TenantContext → VerifiedSubject → Str → CreateCaseCommand → Bytes → Instant → CreateArgs
create_args context subject idempotency_key command request_hash now = record {
  tenant_id = context.tenant_id;
  shared_user_id = subject.shared_user_id;
  idempotency_key = idempotency_key;
  request_hash = request_hash;
  title = command.title;
  summary = command.summary;
  client_reference = command.client_reference;
  destination_country = command.destination_country;
  document_type = command.document_type;
  next_action_due_at = command.next_action_due_at;
  retention_class = retention_name command.retention_class;
  retain_until = command.retain_until;
  object_reference = Option.map (λ d. d.object_reference) command.encrypted_document;
  ciphertext_sha256 = Option.map (λ d. d.ciphertext_sha256) command.encrypted_document;
  key_version = Option.map (λ d. d.key_version) command.encrypted_document;
  at = now;
}

-- What `create_case` checks and computes before it reaches the database: the request's hash.
unfoldable pub prepare_create :
    Interfaces → TenantContext → Str → CreateCaseCommand → Instant → Result CaseServiceError Bytes
prepare_create lib context idempotency_key command now = and_then (require_mutator lib context) λ _.
    and_then (validate_idempotency_key idempotency_key) λ _.
      and_then (map_err validation (lib.validate_create command now))
        λ _. canonical_hash lib.create_to_vec lib.sha256 (1, command)

unfoldable pub create_case :
    Interfaces
    → CaseService
    → TenantContext
    → VerifiedSubject
    → Str
    → CreateCaseCommand
    → Instant
    → Action CaseServiceError CaseMutationResult
create_case lib self context subject idempotency_key command now = do
  request_hash ← lift (prepare_create lib context idempotency_key command now)
  row ← raise_as map_sql_error (
      execute (
        self.pool.create_case
          (create_args context subject idempotency_key command request_hash now)))
  mutation_result context row

abbrev pub transition_args :
    TenantContext
    → VerifiedSubject
    → Uuid
    → Str
    → TransitionCaseCommand
    → Bytes
    → Instant
    → TransitionArgs
transition_args context subject case_id idempotency_key command request_hash now = record {
  tenant_id = context.tenant_id;
  shared_user_id = subject.shared_user_id;
  case_id = case_id;
  expected_version = command.expected_version;
  to_status = status_name command.to_status;
  idempotency_key = idempotency_key;
  request_hash = request_hash;
  at = now;
}

unfoldable pub prepare_transition :
    Interfaces → TenantContext → Uuid → Str → TransitionCaseCommand → Result CaseServiceError Bytes
prepare_transition lib context case_id idempotency_key command =
    and_then (require_mutator lib context) λ _.
      and_then (validate_idempotency_key idempotency_key) λ _.
        and_then (require_version command.expected_version)
          λ _. canonical_hash lib.transition_to_vec lib.sha256 (1, case_id, command)

unfoldable pub transition_case :
    Interfaces
    → CaseService
    → TenantContext
    → VerifiedSubject
    → Uuid
    → Str
    → TransitionCaseCommand
    → Instant
    → Action CaseServiceError CaseMutationResult
transition_case lib self context subject case_id idempotency_key command now = do
  request_hash ← lift (prepare_transition lib context case_id idempotency_key command)
  row ← raise_as map_sql_error (
      execute (
        self.pool.transition_case
          (transition_args context subject case_id idempotency_key command request_hash now)))
  mutation_result context row

abbrev pub rotate_args :
    TenantContext
    → VerifiedSubject
    → Uuid
    → Str
    → RotateEncryptedObjectCommand
    → Bytes
    → Instant
    → RotateArgs
rotate_args context subject case_id idempotency_key command request_hash now = record {
  tenant_id = context.tenant_id;
  shared_user_id = subject.shared_user_id;
  case_id = case_id;
  expected_version = command.expected_version;
  idempotency_key = idempotency_key;
  request_hash = request_hash;
  object_reference = command.encrypted_document.object_reference;
  ciphertext_sha256 = command.encrypted_document.ciphertext_sha256;
  key_version = command.encrypted_document.key_version;
  at = now;
}

unfoldable pub prepare_rotate :
    Interfaces
    → TenantContext
    → Uuid
    → Str
    → RotateEncryptedObjectCommand
    → Result CaseServiceError Bytes
prepare_rotate lib context case_id idempotency_key command =
    and_then (require_administrator lib context) λ _.
      and_then (validate_idempotency_key idempotency_key) λ _.
        and_then (require_version command.expected_version) λ _.
          and_then (map_err validation (lib.validate_object command.encrypted_document))
            λ _. canonical_hash lib.rotate_to_vec lib.sha256 (1, case_id, command)

unfoldable pub rotate_encrypted_object :
    Interfaces
    → CaseService
    → TenantContext
    → VerifiedSubject
    → Uuid
    → Str
    → RotateEncryptedObjectCommand
    → Instant
    → Action CaseServiceError CaseMutationResult
rotate_encrypted_object lib self context subject case_id idempotency_key command now = do
  request_hash ← lift (prepare_rotate lib context case_id idempotency_key command)
  row ← raise_as map_sql_error (
      execute (
        self.pool.rotate_case_object
          (rotate_args context subject case_id idempotency_key command request_hash now)))
  mutation_result context row
