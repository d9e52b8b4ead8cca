-- ===== src/Api/Handlers/Invariants.antt =====
-- The handlers keep what holds of the tables where the procedures do.
use apme_api.Prelude.{ℕ, ◌≡◌, inl, inr, Bool-cases, List, [], ◌∷◌, ok}
use apme_api.Text.{Str}
use apme_api.Domain.{
  Uuid, VerifiedSubject, TenantContext, CaseMutationResult, CreateCaseCommand,
  TransitionCaseCommand, RotateEncryptedObjectCommand, Interfaces,
}
use apme_api.Database.{Tables, World, Action, lift, finish, raise_as}
use apme_api.Database.Invariants.{IsSteady, IsKept, continue-IsKept}
use apme_api.Http.{HeaderMap, Codecs}
use apme_api.Auth.Session.{cases_read_scope, cases_write_scope}
use apme_api.Cases.Errors.{CaseServiceError}
use apme_api.Cases.Mutations
use apme_api.Cases.Invariants.{IsKeeping}
use apme_api.Cases.Invariants as Operations
use apme_api.Api.Access.{AppState, tenant_id, authorized_tenant_with_scopes, authorized_tenant}
use apme_api.Api.Access.Membership.{authorized_tenant_with_scopes_sound}
use apme_api.Api.Handlers.{
  Clock, publish_mutation, publish_unless_replayed, list_cases, get_case, create_case,
  transition_case, rotate_encrypted_object,
}
use apme_api.Api.Handlers.Publication.{handling}

module _ (K : Tables → Type 0) (codecs : Codecs) (state : AppState) (seconds : ℕ)
    (headers : HeaderMap) where
  pub authorized-IsKept :
      (scopes : List Str) (w : World)
      → K w.tables
      → IsSteady K w.schedule
      → IsKept K (authorized_tenant_with_scopes codecs state headers scopes seconds w)
  unfolding authorized_tenant_with_scopes lift raise_as finish
  authorized-IsKept scopes w e h =
      continue-IsKept K _ _ (e, h)
        λ subject u p e1 h1.
          continue-IsKept K _ _ (e1, h1)
            λ t u1 p1 e2 h2.
              continue-IsKept K _ _ (Operations.tenant_context-IsKept K subject t u1 e2 h2)
                λ context u2 p2 e3 h3. (e3, h3)

  publish-IsKept :
      (m : CaseMutationResult) (w : World)
      → K w.tables
      → IsSteady K w.schedule
      → IsKept K (publish_unless_replayed m w)
  unfolding publish_unless_replayed publish_mutation finish
  publish-IsKept m w e h = elim (Bool-cases m.replayed) [
    | inl d ↦ rw d (e, h)
    | inr d ↦ rw d (e, h)
  ]

  module _ (T : Uuid → Type 0) (mine : (t : Uuid) → tenant_id codecs headers ≡ ok t → T t) where
    own_context :
        (scopes : List Str) (w w' : World) (subject : VerifiedSubject) (context : TenantContext)
        → authorized_tenant_with_scopes codecs state headers scopes seconds w
          ≡ (ok (subject, context), w')
        → T context.tenant_id
    own_context scopes w w' subject context h =
        mine context.tenant_id
          (authorized_tenant_with_scopes_sound codecs state headers scopes seconds w w' subject
            context h).1

    handling-IsKept :
        (mutate : VerifiedSubject
          → TenantContext
          → Str
          → Action CaseServiceError CaseMutationResult)
        → ((s : VerifiedSubject) (c : TenantContext) (k : Str) (w : World)
            → T c.tenant_id
            → K w.tables
            → IsSteady K w.schedule
            → IsKept K (mutate s c k w))
        → {B : Type 0} (respond : CaseMutationResult → B) (w : World) → K w.tables
        → IsSteady K w.schedule
        → IsKept K (handling codecs state seconds headers mutate respond w)
    unfolding lift raise_as finish
    handling-IsKept mutate kept respond w e h =
        continue-IsKept K _ _ (authorized-IsKept (cases_write_scope ∷ []) w e h)
          λ (subject, context) u p e1 h1.
            continue-IsKept K _ _ (e1, h1)
              λ key u1 p1 e2 h2.
                continue-IsKept K _ _
                  (kept subject context key u1
                    (own_context (cases_write_scope ∷ []) w u subject context p) e2 h2)
                  λ m u2 p2 e3 h3.
                    continue-IsKept K _ _ (publish-IsKept m u2 e3 h3) λ done u3 p3 e4 h4. (e4, h4)

module _ (K : Tables → Type 0) (lib : Interfaces) (codecs : Codecs) (state : AppState)
    (T : Uuid → Type 0) (keeps : IsKeeping K T state.cases.pool) (clock : Clock)
    (headers : HeaderMap) (mine : (t : Uuid) → tenant_id codecs headers ≡ ok t → T t) (w : World)
    (e : K w.tables) (h : IsSteady K w.schedule) where
  pub list_cases-IsKept : IsKept K (list_cases lib codecs state clock headers w)
  unfolding list_cases authorized_tenant raise_as
  list_cases-IsKept =
      continue-IsKept K _ _
        (authorized-IsKept K codecs state clock.seconds headers (cases_read_scope ∷ []) w e h)
        λ (subject, context) u p e1 h1. Operations.list_cases-IsKept K context u e1 h1

  pub get_case-IsKept : (id : Uuid) → IsKept K (get_case lib codecs state clock id headers w)
  unfolding get_case authorized_tenant raise_as finish
  get_case-IsKept id =
      continue-IsKept K _ _
        (authorized-IsKept K codecs state clock.seconds headers (cases_read_scope ∷ []) w e h)
        λ (subject, context) u p e1 h1.
          continue-IsKept K _ _ (Operations.get_case-IsKept K context id u e1 h1)
            λ case u1 p1 e2 h2.
              continue-IsKept K _ _
                (Operations.record_access-IsKept K state.cases T keeps context
                  (own_context K codecs state clock.seconds headers T mine (cases_read_scope ∷ []) w
                    u subject context p)
                  subject case.id clock.now u1 e2 h2)
                λ done u2 p2 e3 h3. (e3, h3)

  pub create_case-IsKept :
      (command : CreateCaseCommand)
      → IsKept K (create_case lib codecs state clock headers command w)
  unfolding create_case
  create_case-IsKept command =
      handling-IsKept K codecs state clock.seconds headers T mine
        (λ s c k. Mutations.create_case lib state.cases c s k command clock.now)
        (λ s c k u d e1 h1.
          Operations.create_case-IsKept K state.cases T keeps c d s lib k clock.now u e1 h1 command)
        _ w e h

  pub transition_case-IsKept :
      (id : Uuid) (command : TransitionCaseCommand)
      → IsKept K (transition_case lib codecs state clock id headers command w)
  unfolding transition_case
  transition_case-IsKept id command =
      handling-IsKept K codecs state clock.seconds headers T mine
        (λ s c k. Mutations.transition_case lib state.cases c s id k command clock.now)
        (λ s c k u d e1 h1.
          Operations.transition_case-IsKept K state.cases T keeps c d s lib k clock.now u e1 h1 id
            command)
        _ w e h

  pub rotate_encrypted_object-IsKept :
      (id : Uuid) (command : RotateEncryptedObjectCommand)
      → IsKept K (rotate_encrypted_object lib codecs state clock id headers command w)
  unfolding rotate_encrypted_object
  rotate_encrypted_object-IsKept id command =
      handling-IsKept K codecs state clock.seconds headers T mine
        (λ s c k. Mutations.rotate_encrypted_object lib state.cases c s id k command clock.now)
        (λ s c k u d e1 h1.
          Operations.rotate_encrypted_object-IsKept K state.cases T keeps c d s lib k clock.now u e1
            h1 id command)
        _ w e h
