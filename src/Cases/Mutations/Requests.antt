-- ===== src/Cases/Mutations/Requests.antt =====
-- Exactly which requests reach the database, and with which hash.
use apme_api.Prelude.{
  ◌≡◌, refl, sym, ◌↔◌, true, Result, ok, arith, map_err, Result-cases, Bool-cases, inl, inr,
  and_then-eq-ok, map_err-eq-ok,
}
use apme_api.Prelude.Int.{ℤ, is_positive}
use apme_api.Text.{Str}
use apme_api.Domain.{
  Uuid, Instant, Bytes, TenantContext, CreateCaseCommand, TransitionCaseCommand,
  RotateEncryptedObjectCommand, Interfaces,
}
use apme_api.Cases.Errors.{validation}
use apme_api.Cases.Guards.{
  canonical_hash, validate_idempotency_key, require_mutator, require_administrator, require_version,
}
use apme_api.Cases.Guards.Keys.{IsKey, validate_idempotency_key_iff}
use apme_api.Cases.Mutations.{prepare_create, prepare_transition, prepare_rotate}

-- The hash is the digest of the serialised request.
abbrev pub IsHash : {T : Type 0} → (T → Result Str Bytes) → (Bytes → Bytes) → T → Bytes → Type 0
IsHash to_vec digest value hash =
    (bytes : Bytes) × (to_vec value ≡ ok bytes) × (hash ≡ digest bytes)

canonical_hash_iff :
    {T : Type 0} (to_vec : T → Result Str Bytes) (digest : Bytes → Bytes) (value : T) (hash : Bytes)
    → (canonical_hash to_vec digest value ≡ ok hash) ↔ IsHash to_vec digest value hash
unfolding canonical_hash
canonical_hash_iff to_vec digest value hash = (
  λ h. elim (Result-cases (to_vec value)) [
    | inl (e, q) ↦ cc (rw q at h)
    | inr (bytes, q) ↦ (bytes, q, sym (ground arith))
  ],
  λ (bytes, q, e). rw (q, e),
)

require_mutator_iff :
    (lib : Interfaces) (context : TenantContext)
    → (require_mutator lib context ≡ ok tt) ↔ (lib.can_create_or_transition context.role ≡ true)
unfolding require_mutator
require_mutator_iff lib context = elim (Bool-cases (lib.can_create_or_transition context.role)) [
  | inl e ↦ rw e (λ h. refl, λ h. refl)
  | inr e ↦ rw e (λ h. cc, λ h. cc)
]

require_administrator_iff :
    (lib : Interfaces) (context : TenantContext)
    → (require_administrator lib context ≡ ok tt) ↔ (lib.can_export_or_delete context.role ≡ true)
unfolding require_administrator
require_administrator_iff lib context = elim (Bool-cases (lib.can_export_or_delete context.role)) [
  | inl e ↦ rw e (λ h. refl, λ h. refl)
  | inr e ↦ rw e (λ h. cc, λ h. cc)
]

require_version_iff :
    (version : ℤ) → (require_version version ≡ ok tt) ↔ (is_positive version ≡ true)
unfolding require_version
require_version_iff version = elim (Bool-cases (is_positive version)) [
  | inl e ↦ rw e (λ h. refl, λ h. refl)
  | inr e ↦ rw e (λ h. cc, λ h. cc)
]

module _ (lib : Interfaces) (context : TenantContext) (key : Str) (hash : Bytes) where
  -- A creation passes: the role may create, the key and the command are valid, and it serialises.
  pub record IsCreation (command : CreateCaseCommand) (now : Instant) : Type 0 where
    pub permitted : lib.can_create_or_transition context.role ≡ true
    pub key_valid : IsKey key
    pub command_valid : lib.validate_create command now ≡ ok tt
    pub hashed : IsHash lib.create_to_vec lib.sha256 (1, command) hash

  -- A creation reaches the database exactly when it passes, and then with that hash.
  pub prepare_create_iff :
      (command : CreateCaseCommand) (now : Instant)
      → (prepare_create lib context key command now ≡ ok hash) ↔ IsCreation command now
  unfolding prepare_create
  prepare_create_iff command now = (
    λ h.
        let (_, role, h1) = and_then-eq-ok (require_mutator lib context) _ h in
        let (_, valid_key, h2) = and_then-eq-ok (validate_idempotency_key key) _ h1 in
        let (_, valid, h3) =
          and_then-eq-ok (map_err validation (lib.validate_create command now)) _ h2 in
        record {
          permitted = (require_mutator_iff lib context).0 role;
          key_valid = (validate_idempotency_key_iff key).0 valid_key;
          command_valid = map_err-eq-ok validation _ valid;
          hashed = (canonical_hash_iff _ _ _ _).0 h3;
        },
    λ c. rw (
      (require_mutator_iff lib context).1 c.permitted,
      (validate_idempotency_key_iff key).1 c.key_valid,
      c.command_valid,
      (canonical_hash_iff lib.create_to_vec lib.sha256 (1, command) hash).1 c.hashed,
    ),
  )

  -- A transition passes: the role may transition, the key is valid, the version expected is
  -- positive, and it serialises with the case's id.
  pub record IsTransition (case_id : Uuid) (command : TransitionCaseCommand) : Type 0 where
    pub permitted : lib.can_create_or_transition context.role ≡ true
    pub key_valid : IsKey key
    pub version_valid : is_positive command.expected_version ≡ true
    pub hashed : IsHash lib.transition_to_vec lib.sha256 (1, case_id, command) hash

  -- A transition reaches the database exactly when it passes, and then with that hash.
  pub prepare_transition_iff :
      (case_id : Uuid) (command : TransitionCaseCommand)
      → (prepare_transition lib context case_id key command ≡ ok hash)
        ↔ IsTransition case_id command
  unfolding prepare_transition
  prepare_transition_iff case_id command = (
    λ h.
        let (_, role, h1) = and_then-eq-ok (require_mutator lib context) _ h in
        let (_, valid_key, h2) = and_then-eq-ok (validate_idempotency_key key) _ h1 in
        let (_, version, h3) = and_then-eq-ok (require_version command.expected_version) _ h2 in
        record {
          permitted = (require_mutator_iff lib context).0 role;
          key_valid = (validate_idempotency_key_iff key).0 valid_key;
          version_valid = (require_version_iff command.expected_version).0 version;
          hashed = (canonical_hash_iff _ _ _ _).0 h3;
        },
    λ c. rw (
      (require_mutator_iff lib context).1 c.permitted,
      (validate_idempotency_key_iff key).1 c.key_valid,
      (require_version_iff command.expected_version).1 c.version_valid,
      (canonical_hash_iff lib.transition_to_vec lib.sha256 (1, case_id, command) hash).1 c.hashed,
    ),
  )

  -- A rotation passes: the role may export or delete, the key is valid, the version expected is
  -- positive, the new reference is valid, and it serialises with the case's id.
  pub record IsRotation (case_id : Uuid) (command : RotateEncryptedObjectCommand) : Type 0 where
    pub permitted : lib.can_export_or_delete context.role ≡ true
    pub key_valid : IsKey key
    pub version_valid : is_positive command.expected_version ≡ true
    pub object_valid : lib.validate_object command.encrypted_document ≡ ok tt
    pub hashed : IsHash lib.rotate_to_vec lib.sha256 (1, case_id, command) hash

  -- A rotation reaches the database exactly when it passes, and then with that hash.
  pub prepare_rotate_iff :
      (case_id : Uuid) (command : RotateEncryptedObjectCommand)
      → (prepare_rotate lib context case_id key command ≡ ok hash) ↔ IsRotation case_id command
  unfolding prepare_rotate
  prepare_rotate_iff case_id command = (
    λ h.
        let (_, role, h1) = and_then-eq-ok (require_administrator lib context) _ h in
        let (_, valid_key, h2) = and_then-eq-ok (validate_idempotency_key key) _ h1 in
        let (_, version, h3) = and_then-eq-ok (require_version command.expected_version) _ h2 in
        let (_, object, h4) =
          and_then-eq-ok (map_err validation (lib.validate_object command.encrypted_document)) _
            h3 in
        record {
          permitted = (require_administrator_iff lib context).0 role;
          key_valid = (validate_idempotency_key_iff key).0 valid_key;
          version_valid = (require_version_iff command.expected_version).0 version;
          object_valid = map_err-eq-ok validation _ object;
          hashed = (canonical_hash_iff _ _ _ _).0 h4;
        },
    λ c. rw (
      (require_administrator_iff lib context).1 c.permitted,
      (validate_idempotency_key_iff key).1 c.key_valid,
      (require_version_iff command.expected_version).1 c.version_valid,
      c.object_valid,
      (canonical_hash_iff lib.rotate_to_vec lib.sha256 (1, case_id, command) hash).1 c.hashed,
    ),
  )
