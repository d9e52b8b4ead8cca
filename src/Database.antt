-- ===== src/Database.antt =====
-- PostgreSQL as src/cases.rs and src/main.rs meet it: the tables that the program's own SELECT
-- statements read, one statement at a time. Before each statement other sessions may change the
-- tables, and the connection may fail before or after the statement takes effect.
-- The stored procedures of the migration are not under src: `Pool` takes them as parameters.
pub mod Frames
pub mod Invariants
pub mod Silence
pub mod Views
use apme_api.Prelude.{ℕ, Bool, Option, List, [], ◌∷◌, Result, ok, err, map_err}
use apme_api.Prelude.Int.{ℤ}
use apme_api.Text.{Str}
use apme_api.Domain.{Uuid, Instant, Bytes, CaseEventReceipt}

-- `sqlx::Error`: only the message of a database error is ever looked at.
pub data SqlError : Type 0 where
  database : Str → SqlError
  row_not_found : SqlError
  other : Str → SqlError

pub record TenantRow : Type 0 where
  pub id : Uuid
  pub organization_id : Uuid

pub record MembershipRow : Type 0 where
  pub tenant_id : Uuid
  pub shared_user_id : Str
  pub role : Str
  pub active : Bool

-- The columns of `apme_cases` that `CASE_SELECT_LIST` and `CASE_SELECT_ONE` name.
pub record CaseRow : Type 0 where
  pub id : Uuid
  pub tenant_id : Uuid
  pub version : ℤ
  pub title : Str
  pub summary : Str
  pub client_reference : Str
  pub destination_country : Str
  pub document_type : Str
  pub next_action_due_at : Option Instant
  pub status : Str
  pub retention_class : Str
  pub retain_until : Instant
  pub legal_hold : Bool
  pub tombstoned_at : Option Instant
  pub encrypted_object_reference : Option Str
  pub ciphertext_sha256 : Option Str
  pub object_key_version : Option ℤ
  pub created_at : Instant
  pub updated_at : Instant

pub record EventRow : Type 0 where
  pub event_id : Uuid
  pub tenant_id : Uuid
  pub case_id : Uuid
  pub case_version : ℤ
  pub event_type : Str
  pub occurred_at : Instant

-- `hidden` stands for the tables that only the stored procedures read, byte by byte.
pub record Tables : Type 0 where
  pub tenants : List TenantRow
  pub memberships : List MembershipRow
  pub cases : List CaseRow
  pub events : List EventRow
  pub hidden : Bytes

pub data Link : Type 0 where
  up : Link
  lost_request : SqlError → Link
  lost_reply : SqlError → Link

-- What surrounds one statement.
pub record Turn : Type 0 where
  pub others : Tables → Tables
  pub link : Link

-- `TenantEvent` of src/main.rs.
pub record TenantEvent : Type 0 where
  pub tenant_id : Uuid
  pub case_id : Uuid
  pub event : CaseEventReceipt

-- `schedule` holds the turns to come, and every turn past its end is quiet. `published` is what the
-- broadcast channel of `AppState` has been sent, the oldest first.
pub record World : Type 0 where
  pub tables : Tables
  pub schedule : List Turn
  pub published : List TenantEvent

-- Code that may suspend and fail. Its combinators are shut: proofs go by their inversions.
abbrev pub Action : Type 0 → Type 0 → Type 0
Action E A = World → Result E A × World

unfoldable pub continue :
    {E A B : Type 0} → Result E A × World → (A → Action E B) → Result E B × World
continue (ok a, w) f = f a w
continue (err e, w) f = (err e, w)

infixl 5 ◌>>=◌ ◌>>◌
abbrev pub ◌>>=◌ : {E A B : Type 0} → Action E A → (A → Action E B) → Action E B
◌>>=◌ m f w = continue (m w) f

abbrev pub ◌>>◌ : {E A B : Type 0} → Action E A → Action E B → Action E B
m >> k = m >>= λ _. k

-- A value that no statement computes.
unfoldable pub lift : {E A : Type 0} → Result E A → Action E A
lift r w = (r, w)

unfoldable pub finish : {E A : Type 0} → A → Action E A
finish a w = (ok a, w)

-- `map_err`, and the conversion that `?` makes.
unfoldable pub raise_as : {E F A : Type 0} → (E → F) → Action E A → Action F A
raise_as f m w = (map_err f (m w).0, (m w).1)

abbrev pub Query : Type 0 → Type 0
Query A = Tables → Result SqlError A × Tables

abbrev pub quiet : Turn
quiet = record { others = λ t. t; link = up }

abbrev pub next_turn : List Turn → Turn
next_turn [] = quiet
next_turn (turn ∷ _) = turn

abbrev pub later_turns : List Turn → List Turn
later_turns [] = []
later_turns (_ ∷ turns) = turns

abbrev pub transmit : {A : Type 0} → Link → Query A → Tables → Result SqlError A × Tables
transmit up q t = q t
transmit (lost_request e) q t = (err e, t)
transmit (lost_reply e) q t = (err e, (q t).1)

-- The tables that the next statement meets.
unfoldable pub current : World → Tables
current w = (next_turn w.schedule).others w.tables

-- One statement against the pool.
unfoldable pub execute : {A : Type 0} → Query A → Action SqlError A
unfolding current
execute q w =
    let (r, t) = transmit (next_turn w.schedule).link q (current w) in
    (r, record w { tables = t; schedule = later_turns w.schedule })

-- A statement that only reads.
unfoldable pub read : {A : Type 0} → (Tables → Result SqlError A) → Action SqlError A
unfolding execute
read q = execute (λ t. (q t, t))

-- The arguments of `apme_create_case`, in the order in which they are bound.
pub record CreateArgs : Type 0 where
  pub tenant_id : Uuid
  pub shared_user_id : Str
  pub idempotency_key : Str
  pub request_hash : Bytes
  pub title : Str
  pub summary : Str
  pub client_reference : Str
  pub destination_country : Str
  pub document_type : Str
  pub next_action_due_at : Option Instant
  pub retention_class : Str
  pub retain_until : Instant
  pub object_reference : Option Str
  pub ciphertext_sha256 : Option Str
  pub key_version : Option ℤ
  pub at : Instant

-- The arguments of `apme_transition_case`.
pub record TransitionArgs : Type 0 where
  pub tenant_id : Uuid
  pub shared_user_id : Str
  pub case_id : Uuid
  pub expected_version : ℤ
  pub to_status : Str
  pub idempotency_key : Str
  pub request_hash : Bytes
  pub at : Instant

-- The arguments of `apme_rotate_case_object`.
pub record RotateArgs : Type 0 where
  pub tenant_id : Uuid
  pub shared_user_id : Str
  pub case_id : Uuid
  pub expected_version : ℤ
  pub idempotency_key : Str
  pub request_hash : Bytes
  pub object_reference : Str
  pub ciphertext_sha256 : Str
  pub key_version : ℤ
  pub at : Instant

-- The arguments of `apme_append_audit`; its kind, its resource type and its payload are literals.
pub record AuditArgs : Type 0 where
  pub tenant_id : Uuid
  pub kind : Str
  pub shared_user_id : Str
  pub resource_type : Str
  pub resource_id : Uuid
  pub at : Instant
  pub payload : Str

-- The row that the three mutating procedures return.
pub record MutationRow : Type 0 where
  pub case_id : Uuid
  pub case_version : ℤ
  pub event_id : Uuid
  pub event_hash : Str
  pub replayed : Bool

-- The migration and the stored procedures behind a connection pool.
pub record Pool : Type 0 where
  pub migration : Query (Unit {0})
  pub create_case : CreateArgs → Query MutationRow
  pub transition_case : TransitionArgs → Query MutationRow
  pub rotate_case_object : RotateArgs → Query MutationRow
  pub append_audit : AuditArgs → Query (Unit {0})
  pub apply_retention : Instant → Str → Query ℤ
  pub verify_case_audit : Uuid → Query Bool
  pub verify_tenant_audit : Uuid → Query Bool
