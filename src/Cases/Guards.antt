-- ===== src/Cases/Guards.antt =====
-- The checks that the mutating operations make before they reach the database.
pub mod Keys
use apme_api.Prelude.{
  ℕ, Bool, true, false, ◌||◌, Result, ok, err, map_err, and_then, ltb, any, if◌then◌else◌, ensure,
}
use apme_api.Prelude.Int.{ℤ, is_positive}
use apme_api.Text.{Str, codes, len, is_empty, is_control}
use apme_api.Domain.{Bytes, TenantContext, Interfaces}
use apme_api.Cases.Errors.{CaseServiceError, validation, not_authorized}

-- `serde_json::to_vec` and `Sha256::digest` are parameters.
unfoldable pub canonical_hash :
    {T : Type 0} → (T → Result Str Bytes) → (Bytes → Bytes) → T → Result CaseServiceError Bytes
canonical_hash to_vec digest value =
    and_then (map_err validation (to_vec value)) λ bytes. ok (digest bytes)

unfoldable pub validate_idempotency_key : Str → Result CaseServiceError (Unit {0})
validate_idempotency_key value =
    if is_empty value || (ltb 200 (len value) || any is_control value)
    then err (validation (codes "Idempotency-Key must contain 1 through 200 visible characters"))
    else ok tt

unfoldable pub require_mutator : Interfaces → TenantContext → Result CaseServiceError (Unit {0})
require_mutator lib context = ensure (lib.can_create_or_transition context.role) not_authorized

-- The role test of `rotate_encrypted_object`.
unfoldable pub require_administrator :
    Interfaces → TenantContext → Result CaseServiceError (Unit {0})
require_administrator lib context = ensure (lib.can_export_or_delete context.role) not_authorized

-- `if command.expected_version <= 0 { return Err(..) }`
unfoldable pub require_version : ℤ → Result CaseServiceError (Unit {0})
require_version version =
    ensure (is_positive version) (validation (codes "expected_version must be positive"))
