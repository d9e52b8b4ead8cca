-- ===== src/Api/Handlers/Unpublished.antt =====
-- A mutation whose handler fails is not published.
use apme_api.Prelude.{◌≡◌, err, if◌then◌else◌}
use apme_api.Domain.{
  Uuid, CreateCaseCommand, TransitionCaseCommand, RotateEncryptedObjectCommand, Interfaces,
}
use apme_api.Database.{World}
use apme_api.Http.{HeaderMap, Codecs}
use apme_api.Cases.Mutations
use apme_api.Cases.Mutations.Silence.{
  create_case-IsSilent, transition_case-IsSilent, rotate_encrypted_object-IsSilent,
}
use apme_api.Api.Errors.{ApiError}
use apme_api.Api.Access.{AppState}
use apme_api.Api.Handlers.Publication.{unserved}
use apme_api.Api.Handlers.{Clock, create_case, transition_case, rotate_encrypted_object}

module _ (lib : Interfaces) (codecs : Codecs) (state : AppState) (clock : Clock)
    (headers : HeaderMap) where
  -- A creation that fails publishes nothing.
  pub create_case_unpublished :
      (command : CreateCaseCommand) (w w' : World) (e : ApiError)
      → create_case lib codecs state clock headers command w ≡ (err e, w')
      → w'.published ≡ w.published
  unfolding create_case
  create_case_unpublished command w w' e h =
      unserved codecs state clock.seconds headers
        (λ s c k. Mutations.create_case lib state.cases c s k command clock.now)
        (λ s c k w. create_case-IsSilent lib state.cases c s k command clock.now w)
        (λ m. (if m.replayed then 200 else 201, m)) w w' e h

  -- A transition that fails publishes nothing.
  pub transition_case_unpublished :
      (id : Uuid) (command : TransitionCaseCommand) (w w' : World) (e : ApiError)
      → transition_case lib codecs state clock id headers command w ≡ (err e, w')
      → w'.published ≡ w.published
  unfolding transition_case
  transition_case_unpublished id command w w' e h =
      unserved codecs state clock.seconds headers
        (λ s c k. Mutations.transition_case lib state.cases c s id k command clock.now)
        (λ s c k w. transition_case-IsSilent lib state.cases c s k id command clock.now w) (λ m. m)
        w w' e h

  -- A rotation that fails publishes nothing.
  pub rotate_encrypted_object_unpublished :
      (id : Uuid) (command : RotateEncryptedObjectCommand) (w w' : World) (e : ApiError)
      → rotate_encrypted_object lib codecs state clock id headers command w ≡ (err e, w')
      → w'.published ≡ w.published
  unfolding rotate_encrypted_object
  rotate_encrypted_object_unpublished id command w w' e h =
      unserved codecs state clock.seconds headers
        (λ s c k. Mutations.rotate_encrypted_object lib state.cases c s id k command clock.now)
        (λ s c k w. rotate_encrypted_object-IsSilent lib state.cases c s k id command clock.now w)
        (λ m. m) w w' e h
