-- ===== src/Cases/Rows/RoundTrip.antt =====
-- A row of `apme_cases` and the case that it is read as determine one another.
use mathlib.Core.Option
use apme_api.Prelude.{◌≡◌, refl, ◌↔◌, Option, none, some, ok, arith, Result-cases, inl, inr}
use apme_api.Prelude.Int.{ℤ}
use apme_api.Text.{Str}
use apme_api.Domain.{EncryptedObjectReference, PersistedCase}
use apme_api.Database.{CaseRow}
use apme_api.Cases.Names.{status_name, retention_name, parse_status, parse_retention}
use apme_api.Cases.Names.RoundTrip.{parse_status_iff, parse_retention_iff}
use apme_api.Cases.Rows.{document_of_columns, case_from_row}

-- The row that holds a case: names for the enumerations, three columns for the object.
unfoldable pub row_of_case : PersistedCase → CaseRow
row_of_case c = record {
  id = c.id;
  tenant_id = c.tenant_id;
  version = c.version;
  title = c.title;
  summary = c.summary;
  client_reference = c.client_reference;
  destination_country = c.destination_country;
  document_type = c.document_type;
  next_action_due_at = c.next_action_due_at;
  status = status_name c.status;
  retention_class = retention_name c.retention_class;
  retain_until = c.retain_until;
  legal_hold = c.legal_hold;
  tombstoned_at = c.tombstoned_at;
  encrypted_object_reference = Option.map (λ d. d.object_reference) c.encrypted_document;
  ciphertext_sha256 = Option.map (λ d. d.ciphertext_sha256) c.encrypted_document;
  object_key_version = Option.map (λ d. d.key_version) c.encrypted_document;
  created_at = c.created_at;
  updated_at = c.updated_at;
}

columns_of_document :
    (d : Option EncryptedObjectReference)
    → document_of_columns
        (Option.map (λ d. d.object_reference) d)
        (Option.map (λ d. d.ciphertext_sha256) d)
        (Option.map (λ d. d.key_version) d)
      ≡ ok d
unfolding document_of_columns
columns_of_document none = refl
columns_of_document (some d) = refl

document_of_columns_inv :
    (a : Option Str) (b : Option Str) (c : Option ℤ) (d : Option EncryptedObjectReference)
    → document_of_columns a b c ≡ ok d
    → (a ≡ Option.map (λ d. d.object_reference) d)
      × (b ≡ Option.map (λ d. d.ciphertext_sha256) d)
      × (c ≡ Option.map (λ d. d.key_version) d)
unfolding document_of_columns
document_of_columns_inv (some a) (some b) (some c) none h = cc
document_of_columns_inv (some a) (some b) (some c) (some d) h = ground arith
document_of_columns_inv none none none none h = (refl, refl, refl)
document_of_columns_inv none none none (some d) h = cc
document_of_columns_inv _ _ _ d h = cc

from_row : (c : PersistedCase) → case_from_row (row_of_case c) ≡ ok c
unfolding case_from_row row_of_case
from_row c = rw (
  (parse_status_iff (status_name c.status) c.status).1 refl,
  (parse_retention_iff (retention_name c.retention_class) c.retention_class).1 refl,
  columns_of_document c.encrypted_document,
)

to_row : (r : CaseRow) (c : PersistedCase) → case_from_row r ≡ ok c → r ≡ row_of_case c
unfolding case_from_row row_of_case
to_row r c h = elim (Result-cases (parse_status r.status)) [
  | inl (f, e) ↦ cc (rw e at h)
  | inr (s, e) ↦ elim (Result-cases (parse_retention r.retention_class)) [
    | inl (f, e') ↦ cc (rw (e, e') at h)
    | inr (k, e') ↦
        elim (Result-cases (
          document_of_columns r.encrypted_object_reference r.ciphertext_sha256
            r.object_key_version)) [
              | inl (f, q) ↦ cc (rw (e, e', q) at h)
              | inr (d, q) ↦ ground (
                arith,
                (parse_status_iff r.status s).0 e,
                (parse_retention_iff r.retention_class k).0 e',
                document_of_columns_inv _ _ _ d q,
              )
            ]
  ]
]

-- A row is read as a case exactly when it is the row that holds that case.
pub case_from_row_iff :
    (r : CaseRow) (c : PersistedCase) → (case_from_row r ≡ ok c) ↔ (r ≡ row_of_case c)
case_from_row_iff r c = (to_row r c, λ e. rw e (from_row c))

pub row_of_case-injective : (c d : PersistedCase) → row_of_case c ≡ row_of_case d → c ≡ d
row_of_case-injective c d e = cc (from_row c, from_row d, e)
