-- ===== src/Cases/Errors/Markers.antt =====
-- How the failures of the stored procedures are read.
use apme_api.Prelude.{◌≡◌, refl, ◌⊎◌, inl, inr, List, [], ◌∷◌, ◌++◌, Bool-cases, if◌then◌else◌}
use apme_api.Text.{Str, codes, contains}
use apme_api.Text.Laws.{contains_iff}
use apme_api.Database.{SqlError}
use apme_api.Cases.Errors.{
  CaseServiceError, not_authorized, not_found, idempotency_conflict, stale_version,
  invalid_transition, key_version_rollback, storage, message_of, map_sql_error,
}

-- A text occurs in another.
abbrev pub Occurs : Str → Str → Type 0
Occurs marker message = (a : Str) × (b : Str) × (message ≡ a ++ (marker ++ b))

-- The markers that the procedures raise, each with its meaning, in the order of precedence.
abbrev pub markers : List (Str × CaseServiceError)
markers =
    (codes "APME_NOT_AUTHORIZED", not_authorized)
    ∷ (codes "APME_CASE_NOT_FOUND", not_found)
    ∷ (codes "APME_IDEMPOTENCY_CONFLICT", idempotency_conflict)
    ∷ (codes "APME_STALE_VERSION", stale_version)
    ∷ (codes "APME_INVALID_TRANSITION", invalid_transition)
    ∷ (codes "APME_KEY_VERSION_ROLLBACK", key_version_rollback)
    ∷ (codes "APME_CASE_OBJECT_NOT_FOUND", not_found)
    ∷ []

-- The reading of a message: the first marker that occurs decides, and without one the other error is
-- the answer.
abbrev pub IsReading :
    Str → CaseServiceError → List (Str × CaseServiceError) → CaseServiceError → Type 0
IsReading message otherwise [] answer = answer ≡ otherwise
IsReading message otherwise ((marker, meaning) ∷ rest) answer =
    (Occurs marker message × (answer ≡ meaning))
    ⊎ ((¬ Occurs marker message) × IsReading message otherwise rest answer)

reading : Str → CaseServiceError → List (Str × CaseServiceError) → CaseServiceError
reading message otherwise [] = otherwise
reading message otherwise ((marker, meaning) ∷ rest) =
    if contains message marker then meaning else reading message otherwise rest

reading-IsReading :
    (message : Str) (otherwise : CaseServiceError) (table : List (Str × CaseServiceError))
    → IsReading message otherwise table (reading message otherwise table)
unfolding reading
reading-IsReading message otherwise [] = refl
reading-IsReading message otherwise ((marker, meaning) ∷ rest) =
    elim (Bool-cases (contains message marker)) [
      | inl e ↦ inl ((contains_iff message marker).0 e, rw e refl)
      | inr e ↦ inr (
        λ o. cc (e, (contains_iff message marker).1 o),
        rw e (reading-IsReading message otherwise rest),
      )
    ]

-- The message of a failed statement is read by its first marker; without one, and for a failure that
-- is not the database's, the failure is storage's.
pub map_sql_error-IsReading :
    (error : SqlError) → IsReading (message_of error) (storage error) markers (map_sql_error error)
unfolding reading map_sql_error
map_sql_error-IsReading error = reading-IsReading (message_of error) (storage error) markers
