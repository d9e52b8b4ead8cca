-- ===== src/Cases/Rows.antt =====
-- From a row of `apme_cases` to a `PersistedCase`.
pub mod RoundTrip
use apme_api.Prelude.{Option, none, some, Result, ok, err, and_then}
use apme_api.Prelude.Int.{ℤ}
use apme_api.Text.{Str, codes}
use apme_api.Domain.{EncryptedObjectReference, PersistedCase}
use apme_api.Database.{CaseRow}
use apme_api.Cases.Errors.{CaseServiceError, validation}
use apme_api.Cases.Names.{parse_status, parse_retention}

-- The `match` on the three columns of the encrypted object.
unfoldable pub document_of_columns :
    Option Str → Option Str → Option ℤ → Result CaseServiceError (Option EncryptedObjectReference)
document_of_columns (some object) (some digest) (some key) =
    ok (some (record { object_reference = object; ciphertext_sha256 = digest; key_version = key }))
document_of_columns none none none = ok none
document_of_columns _ _ _ =
    err (validation (codes "incomplete encrypted object reference in persistence"))

unfoldable pub case_from_row : CaseRow → Result CaseServiceError PersistedCase
case_from_row row = and_then (parse_status row.status) λ status.
    and_then (parse_retention row.retention_class) λ retention_class.
      and_then
        (document_of_columns row.encrypted_object_reference row.ciphertext_sha256
          row.object_key_version)
        λ encrypted_document. ok (record {
          id = row.id;
          tenant_id = row.tenant_id;
          version = row.version;
          title = row.title;
          summary = row.summary;
          client_reference = row.client_reference;
          destination_country = row.destination_country;
          document_type = row.document_type;
          next_action_due_at = row.next_action_due_at;
          status = status;
          retention_class = retention_class;
          retain_until = row.retain_until;
          legal_hold = row.legal_hold;
          tombstoned_at = row.tombstoned_at;
          encrypted_document = encrypted_document;
          created_at = row.created_at;
          updated_at = row.updated_at;
        })
