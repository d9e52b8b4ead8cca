-- ===== src/Tests/Fixture.antt =====
-- A small deployment: one tenant with a member, its cases, and libraries that answer simply.
use apme_api.Prelude.{Bool, true, false, Option, none, some, [], ◌∷◌, ok}
use apme_api.Prelude.Int.{ℤ}
use apme_api.Text.{Str, codes}
use apme_api.Domain.{
  Uuid, TenantRole, viewer, administrator, standard, intake, review, Interfaces,
  EncryptedObjectReference, CreateCaseCommand, TransitionCaseCommand, RotateEncryptedObjectCommand,
  PersistedCase, CaseMutationResult, TenantContext, VerifiedSubject,
}
use apme_api.Database.{CaseRow, EventRow, Tables, World, TenantEvent, MutationRow, Pool}
use apme_api.Http.{
  HeaderMap, Codecs, no_headers, insert_header, authorization, tenant_header, idempotency_header,
}
use apme_api.Auth.Session.{Identity, Introspection}
use apme_api.Auth.Service.{SharedAuth, AuthService, authenticated, shared_auth}
use apme_api.Cases.Service.{CaseService}
use apme_api.Api.Access.{AppState}
use apme_api.Api.Handlers.{Clock}

-- A one-character name for a number.
abbrev read_uuid : Str → Option Uuid
read_uuid (c ∷ []) = some c
read_uuid _ = none

abbrev pub codecs : Codecs
codecs = record { to_str = λ v. some v; from_str = λ s. some s; parse_uuid = read_uuid }

abbrev pub may_write : TenantRole → Bool
may_write viewer = false
may_write _ = true

abbrev pub may_delete : TenantRole → Bool
may_delete administrator = true
may_delete _ = false

abbrev pub lib : Interfaces
lib = record {
  can_create_or_transition = may_write;
  can_export_or_delete = may_delete;
  validate_create = λ command now. ok tt;
  validate_object = λ object. ok tt;
  create_to_vec = λ request. ok (1 ∷ []);
  transition_to_vec = λ request. ok (2 ∷ []);
  rotate_to_vec = λ request. ok (3 ∷ []);
  sha256 = λ bytes. 0 ∷ bytes;
}

abbrev pub user : Str
user = codes "u"

abbrev pub identity : Identity
identity = record { shared_user_id = user; session_id = some (codes "s") }

abbrev pub introspection : Introspection
introspection = record {
  active = true;
  sub = some user;
  iss = some (codes "i");
  aud = some (codes "a");
  sid = some (codes "s");
  exp = some 100;
  nbf = none;
  scope = none;
}

abbrev pub remote : SharedAuth
remote = record {
  check = λ headers. authenticated identity shared_auth;
  is_sandboxed = λ who. false;
  introspect = λ token audience scopes. some introspection;
  has_scope = λ found scope. true;
}

abbrev pub auth : AuthService
auth = record { remote = remote; issuer = codes "i"; audience = codes "a" }

abbrev pub subject : VerifiedSubject
subject = record { shared_user_id = user; session_id = codes "s" }

abbrev pub headers : HeaderMap
headers = insert_header authorization (codes "Bearer t") (
    insert_header tenant_header (codes "7")
      (insert_header idempotency_header (codes "k") no_headers))

abbrev pub tenant : Uuid
tenant = b'7'

abbrev pub context : TenantContext
context = record { tenant_id = tenant; organization_id = 70; role = administrator }

abbrev pub stored_row : Uuid → Uuid → CaseRow
stored_row owner id = record {
  id = id;
  tenant_id = owner;
  version = ℤ.pos 1;
  title = codes "t";
  summary = [];
  client_reference = [];
  destination_country = codes "FR";
  document_type = codes "d";
  next_action_due_at = none;
  status = codes "intake";
  retention_class = codes "standard";
  retain_until = 9;
  legal_hold = false;
  tombstoned_at = none;
  encrypted_object_reference = none;
  ciphertext_sha256 = none;
  object_key_version = none;
  created_at = 1;
  updated_at = 1;
}

abbrev pub stored_case : Uuid → PersistedCase
stored_case id = record {
  id = id;
  tenant_id = tenant;
  version = ℤ.pos 1;
  title = codes "t";
  summary = [];
  client_reference = [];
  destination_country = codes "FR";
  document_type = codes "d";
  next_action_due_at = none;
  status = intake;
  retention_class = standard;
  retain_until = 9;
  legal_hold = false;
  tombstoned_at = none;
  encrypted_document = none;
  created_at = 1;
  updated_at = 1;
}

abbrev pub tables : Tables
tables = record {
  tenants = record { id = tenant; organization_id = 70 } ∷ [];
  memberships =
      record {
        tenant_id = tenant;
        shared_user_id = user;
        role = codes "administrator";
        active = true;
      }
      ∷ [];
  cases = stored_row 8 1 ∷ stored_row tenant 2 ∷ [];
  events = [];
  hidden = [];
}

abbrev pub event_row : EventRow
event_row = record {
  event_id = 5;
  tenant_id = tenant;
  case_id = 2;
  case_version = ℤ.pos 1;
  event_type = codes "e";
  occurred_at = 1;
}

-- The procedures all append one event about the second case.
abbrev pub with_event : Tables → Tables
with_event t = record t { events = event_row ∷ t.events }

abbrev pub mutation_row : MutationRow
mutation_row = record {
  case_id = 2;
  case_version = ℤ.pos 1;
  event_id = 5;
  event_hash = codes "h";
  replayed = false;
}

abbrev pub pool : Pool
pool = record {
  migration = λ t. (ok tt, t);
  create_case = λ args t. (ok mutation_row, with_event t);
  transition_case = λ args t. (ok mutation_row, with_event t);
  rotate_case_object = λ args t. (ok mutation_row, with_event t);
  append_audit = λ args t. (ok tt, record t { hidden = 1 ∷ t.hidden });
  apply_retention = λ now actor t. (ok (ℤ.pos 0), t);
  verify_case_audit = λ id t. (ok true, t);
  verify_tenant_audit = λ id t. (ok true, t);
}

abbrev pub cases : CaseService
cases = record { pool = pool }

abbrev pub state : AppState
state = record { auth = auth; cases = cases }

abbrev pub clock : Clock
clock = record { seconds = 50; now = 50 }

abbrev pub world : World
world = record { tables = tables; schedule = []; published = [] }

abbrev pub mutated : World
mutated = record { tables = with_event tables; schedule = []; published = [] }

abbrev pub audited : World
audited = record { tables = record tables { hidden = 1 ∷ [] }; schedule = []; published = [] }

abbrev pub result : CaseMutationResult
result = record {
  case = stored_case 2;
  event = record {
    event_id = 5;
    tenant_id = tenant;
    case_id = 2;
    case_version = ℤ.pos 1;
    event_type = codes "e";
    occurred_at = 1;
    event_hash = codes "h";
  };
  replayed = false;
}

abbrev pub told : TenantEvent
told = record { tenant_id = tenant; case_id = 2; event = result.event }

abbrev pub published : World
published = record { tables = with_event tables; schedule = []; published = told ∷ [] }

abbrev pub object : EncryptedObjectReference
object = record {
  object_reference = codes "o";
  ciphertext_sha256 = codes "c";
  key_version = ℤ.pos 2;
}

abbrev pub creation : CreateCaseCommand
creation = record {
  title = codes "t";
  summary = [];
  client_reference = [];
  destination_country = codes "FR";
  document_type = codes "d";
  next_action_due_at = none;
  retention_class = standard;
  retain_until = 9;
  encrypted_document = none;
}

abbrev pub transition : TransitionCaseCommand
transition = record { expected_version = ℤ.pos 1; to_status = review }

abbrev pub rotation : RotateEncryptedObjectCommand
rotation = record { expected_version = ℤ.pos 1; encrypted_document = object }
