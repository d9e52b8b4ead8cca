-- ===== src/Domain.antt =====
-- The shared types of the apme-interfaces crate, with the fields and variants that src/cases.rs,
-- src/main.rs and src/auth.rs construct, read or match on.
-- A UUID is its 128-bit number, in the order that PostgreSQL compares. An instant (`DateTime<Utc>`)
-- is its distance from the earliest one in chrono's unit: the program only carries and orders them.
use apme_api.Prelude.{ℕ, Bool, Option, List, Result}
use apme_api.Prelude.Int.{ℤ}
use apme_api.Text.{Str}

abbrev pub Uuid : Type 0
Uuid = ℕ

abbrev pub Instant : Type 0
Instant = ℕ

abbrev pub Bytes : Type 0
Bytes = List ℕ

pub data CaseStatus : Type 0 where
  intake collecting_documents review submitted completed closed : CaseStatus

pub data RetentionClass : Type 0 where
  standard extended legal_hold_eligible : RetentionClass

pub data TenantRole : Type 0 where
  viewer agent administrator : TenantRole

pub record TenantContext : Type 0 where
  pub tenant_id : Uuid
  pub organization_id : Uuid
  pub role : TenantRole

pub record VerifiedSubject : Type 0 where
  pub shared_user_id : Str
  pub session_id : Str

pub record EncryptedObjectReference : Type 0 where
  pub object_reference : Str
  pub ciphertext_sha256 : Str
  pub key_version : ℤ

pub record CreateCaseCommand : Type 0 where
  pub title : Str
  pub summary : Str
  pub client_reference : Str
  pub destination_country : Str
  pub document_type : Str
  pub next_action_due_at : Option Instant
  pub retention_class : RetentionClass
  pub retain_until : Instant
  pub encrypted_document : Option EncryptedObjectReference

pub record TransitionCaseCommand : Type 0 where
  pub expected_version : ℤ
  pub to_status : CaseStatus

pub record RotateEncryptedObjectCommand : Type 0 where
  pub expected_version : ℤ
  pub encrypted_document : EncryptedObjectReference

pub record PersistedCase : Type 0 where
  pub id : Uuid
  pub tenant_id : Uuid
  pub version : ℤ
  pub title : Str
  pub summary : Str
  pub client_reference : Str
  pub destination_country : Str
  pub document_type : Str
  pub next_action_due_at : Option Instant
  pub status : CaseStatus
  pub retention_class : RetentionClass
  pub retain_until : Instant
  pub legal_hold : Bool
  pub tombstoned_at : Option Instant
  pub encrypted_document : Option EncryptedObjectReference
  pub created_at : Instant
  pub updated_at : Instant

pub record CaseEventReceipt : Type 0 where
  pub event_id : Uuid
  pub tenant_id : Uuid
  pub case_id : Uuid
  pub case_version : ℤ
  pub event_type : Str
  pub occurred_at : Instant
  pub event_hash : Str

pub record CaseMutationResult : Type 0 where
  pub case : PersistedCase
  pub event : CaseEventReceipt
  pub replayed : Bool

pub record CaseSubscription : Type 0 where
  pub tenant_id : Uuid
  pub case_id : Option Uuid

-- What the program calls of apme-interfaces, serde_json and sha2: a parameter of the model.
pub record Interfaces : Type 0 where
  pub can_create_or_transition : TenantRole → Bool
  pub can_export_or_delete : TenantRole → Bool
  pub validate_create : CreateCaseCommand → Instant → Result Str (Unit {0})
  pub validate_object : EncryptedObjectReference → Result Str (Unit {0})
  pub create_to_vec : ℕ × CreateCaseCommand → Result Str Bytes
  pub transition_to_vec : ℕ × Uuid × TransitionCaseCommand → Result Str Bytes
  pub rotate_to_vec : ℕ × Uuid × RotateEncryptedObjectCommand → Result Str Bytes
  pub sha256 : Bytes → Bytes
