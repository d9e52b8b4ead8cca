-- ===== src/Api/Handlers.antt =====
-- The REST handlers and the publication of mutations.
pub mod Publication
pub mod Served
pub mod Unpublished
pub mod Reads
pub mod Alike
pub mod Invariants
pub mod Fresh
use apme_api.Prelude.{ℕ, Bool, true, false, not, if◌then◌else◌, List, [], ◌∷◌, ◌++◌, Result, ok}
use apme_api.Text.{Str}
use apme_api.Domain.{
  Uuid, Instant, VerifiedSubject, TenantContext, PersistedCase, CreateCaseCommand,
  TransitionCaseCommand, RotateEncryptedObjectCommand, CaseMutationResult, Interfaces,
}
use apme_api.Database.{TenantEvent, World, Action, ◌>>=◌, ◌>>◌, lift, finish, raise_as}
use apme_api.Http.{HeaderMap, Codecs}
use apme_api.Auth.Session.{cases_write_scope}
use apme_api.Cases.Lookup
use apme_api.Cases.Mutations
use apme_api.Api.Errors.{ApiError, cases}
use apme_api.Api.Access.{
  AppState, authorized_tenant, authorized_tenant_with_scopes, idempotency_key,
}

abbrev pub event_of : CaseMutationResult → TenantEvent
event_of mutation = record {
  tenant_id = mutation.case.tenant_id;
  case_id = mutation.case.id;
  event = mutation.event;
}

-- The result of `Sender::send` is ignored.
unfoldable pub publish_mutation : CaseMutationResult → Action ApiError (Unit {0})
publish_mutation mutation w =
    (ok tt, record w { published = w.published ++ event_of mutation ∷ [] })

-- What the handlers do with a mutation: publish it, unless it is a replay.
unfoldable pub publish_unless_replayed : CaseMutationResult → Action ApiError (Unit {0})
publish_unless_replayed mutation =
    if not mutation.replayed then publish_mutation mutation else finish tt

-- `unix_now` and `Utc::now()` are one clock; each handler is given both readings.
pub record Clock : Type 0 where
  pub seconds : ℕ
  pub now : Instant

module _ (lib : Interfaces) (codecs : Codecs) (state : AppState) (clock : Clock) where
  unfoldable pub list_cases : HeaderMap → Action ApiError (List PersistedCase)
  list_cases headers = do
    (_, context) ← authorized_tenant codecs state headers clock.seconds
    raise_as cases (Lookup.list_cases context)

  unfoldable pub get_case : Uuid → HeaderMap → Action ApiError PersistedCase
  get_case id headers = do
    (subject, context) ← authorized_tenant codecs state headers clock.seconds
    case ← raise_as cases (Lookup.get_case context id)
    raise_as cases (Lookup.record_access state.cases context subject case.id clock.now)
    finish case

  -- `201 Created` for a new case, `200 OK` for a replay.
  unfoldable pub create_case :
      HeaderMap → CreateCaseCommand → Action ApiError (ℕ × CaseMutationResult)
  create_case headers command = do
    (subject, context) ←
        authorized_tenant_with_scopes codecs state headers (cases_write_scope ∷ []) clock.seconds
    key ← lift (idempotency_key codecs headers)
    mutation ←
        raise_as cases (Mutations.create_case lib state.cases context subject key command clock.now)
    publish_unless_replayed mutation
    finish (if mutation.replayed then 200 else 201, mutation)

  unfoldable pub transition_case :
      Uuid → HeaderMap → TransitionCaseCommand → Action ApiError CaseMutationResult
  transition_case id headers command = do
    (subject, context) ←
        authorized_tenant_with_scopes codecs state headers (cases_write_scope ∷ []) clock.seconds
    key ← lift (idempotency_key codecs headers)
    mutation ←
        raise_as cases
          (Mutations.transition_case lib state.cases context subject id key command clock.now)
    publish_unless_replayed mutation
    finish mutation

  unfoldable pub rotate_encrypted_object :
      Uuid → HeaderMap → RotateEncryptedObjectCommand → Action ApiError CaseMutationResult
  rotate_encrypted_object id headers command = do
    (subject, context) ←
        authorized_tenant_with_scopes codecs state headers (cases_write_scope ∷ []) clock.seconds
    key ← lift (idempotency_key codecs headers)
    mutation ←
        raise_as cases (
          Mutations.rotate_encrypted_object lib state.cases context subject id key command
            clock.now)
    publish_unless_replayed mutation
    finish mutation
