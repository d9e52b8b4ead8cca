-- ===== src/Api/Handlers/Alike.antt =====
-- What the handlers answer to a request for a tenant depends on the rows of that tenant alone.
use mathlib.Core.Path.{subst}
use apme_api.Prelude.{ℕ, ◌≡◌, refl, sym, inl, inr, Bool-cases, List, [], ◌∷◌, ok}
use apme_api.Text.{Str}
use apme_api.Domain.{
  Uuid, Bytes, VerifiedSubject, TenantContext, CaseMutationResult, CreateCaseCommand,
  TransitionCaseCommand, RotateEncryptedObjectCommand, Interfaces,
}
use apme_api.Database.{World, Action, finish}
use apme_api.Database.Frames.{lift-eq-ok}
use apme_api.Database.Views.{
  Agree, IsAlike, continue-IsAlike, lift-IsAlike, finish-IsAlike, raise_as-IsAlike,
}
use apme_api.Http.{HeaderMap, Codecs}
use apme_api.Auth.Session.{cases_read_scope, cases_write_scope}
use apme_api.Cases.Errors.{CaseServiceError}
use apme_api.Cases.Lookup.{tenant_context}
use apme_api.Cases.Lookup
use apme_api.Cases.Mutations
use apme_api.Cases.Tenancy.{IsPartitioned}
use apme_api.Cases.Tenancy.Alike
use apme_api.Api.Errors.{ApiError, cases}
use apme_api.Api.Access.{AppState, tenant_id, authorized_tenant_with_scopes, authorized_tenant}
use apme_api.Api.Access.Membership.{authorized_tenant_with_scopes_sound}
use apme_api.Api.Handlers.{
  Clock, publish_mutation, publish_unless_replayed, list_cases, get_case, create_case,
  transition_case, rotate_encrypted_object,
}
use apme_api.Api.Handlers.Publication.{handling}

module _ (part : Uuid → Bytes → Bytes) (tenant : Uuid) (codecs : Codecs) (state : AppState)
    (seconds : ℕ) (headers : HeaderMap)
    (own : (t : Uuid) → tenant_id codecs headers ≡ ok t → t ≡ tenant) where
  authorized-IsAlike :
      (scopes : List Str) (w v : World)
      → Agree part tenant w v
      → IsAlike part tenant
          (authorized_tenant_with_scopes codecs state headers scopes seconds w)
          (authorized_tenant_with_scopes codecs state headers scopes seconds v)
  unfolding authorized_tenant_with_scopes
  authorized-IsAlike scopes w v h =
      continue-IsAlike part tenant _ _ _ (lift-IsAlike part tenant _ w v h) λ subject u u' p k.
        continue-IsAlike part tenant _ _ _
          (lift-IsAlike part tenant (tenant_id codecs headers) u u' k)
          λ t u1 u1' p1 k1.
            continue-IsAlike part tenant _ _ _
              (raise_as-IsAlike part tenant cases _ _ u1 u1' (
                subst
                  (λ t.
                    IsAlike part tenant (tenant_context subject t u1)
                      (tenant_context subject t u1'))
                  (sym (own t (lift-eq-ok (tenant_id codecs headers) u p1).0))
                  (Alike.tenant_context-IsAlike part tenant subject u1 u1' k1)))
              λ context u2 u2' p2 k2. finish-IsAlike part tenant ApiError _ u2 u2' k2

  own_context :
      (scopes : List Str) (w w' : World) (subject : VerifiedSubject) (context : TenantContext)
      → authorized_tenant_with_scopes codecs state headers scopes seconds w
        ≡ (ok (subject, context), w')
      → context.tenant_id ≡ tenant
  own_context scopes w w' subject context h =
      own context.tenant_id
        (authorized_tenant_with_scopes_sound codecs state headers scopes seconds w w' subject
          context h).1

  publish-IsAlike :
      (m : CaseMutationResult) (w v : World)
      → Agree part tenant w v
      → IsAlike part tenant (publish_unless_replayed m w) (publish_unless_replayed m v)
  unfolding publish_unless_replayed publish_mutation finish
  publish-IsAlike m w v h = elim (Bool-cases m.replayed) [
    | inl e ↦ rw e (refl, h)
    | inr e ↦ rw e (refl, record { tables = h.tables; turns = h.turns })
  ]

  module _
      (mutate : VerifiedSubject → TenantContext → Str → Action CaseServiceError CaseMutationResult)
      (alike : (s : VerifiedSubject) (c : TenantContext) (k : Str) (w v : World)
        → c.tenant_id ≡ tenant
        → Agree part tenant w v
        → IsAlike part tenant (mutate s c k w) (mutate s c k v)) where
    handling-IsAlike :
        {B : Type 0} (respond : CaseMutationResult → B) (w v : World)
        → Agree part tenant w v
        → IsAlike part tenant
            (handling codecs state seconds headers mutate respond w)
            (handling codecs state seconds headers mutate respond v)
    handling-IsAlike respond w v h =
        continue-IsAlike part tenant _ _ _ (authorized-IsAlike (cases_write_scope ∷ []) w v h)
          λ (subject, context) u u' p k.
            continue-IsAlike part tenant _ _ _ (lift-IsAlike part tenant _ u u' k)
              λ key u1 u1' p1 k1.
                continue-IsAlike part tenant _ _ _
                  (raise_as-IsAlike part tenant cases _ _ u1 u1' (
                    alike subject context key u1 u1'
                      (own_context (cases_write_scope ∷ []) w u subject context p) k1))
                  λ m u2 u2' p2 k2.
                    continue-IsAlike part tenant _ _ _ (publish-IsAlike m u2 u2' k2)
                      λ done u3 u3' p3 k3. finish-IsAlike part tenant ApiError _ u3 u3' k3

module _ (part : Uuid → Bytes → Bytes) (tenant : Uuid) (lib : Interfaces) (codecs : Codecs)
    (state : AppState) (apart : IsPartitioned part state.cases.pool tenant) (clock : Clock)
    (headers : HeaderMap) (own : (t : Uuid) → tenant_id codecs headers ≡ ok t → t ≡ tenant)
    (w v : World) (h : Agree part tenant w v) where
  pub list_cases-IsAlike :
      IsAlike part tenant
        (list_cases lib codecs state clock headers w)
        (list_cases lib codecs state clock headers v)
  unfolding list_cases authorized_tenant
  list_cases-IsAlike =
      continue-IsAlike part tenant _ _ _
        (authorized-IsAlike part tenant codecs state clock.seconds headers own
          (cases_read_scope ∷ []) w v h)
        λ (subject, context) u u' p k.
          let same =
            own_context part tenant codecs state clock.seconds headers own (cases_read_scope ∷ []) w
              u subject context p in
          raise_as-IsAlike part tenant cases _ _ u u' (
            subst
              (λ t.
                Agree part t u u'
                → IsAlike part t (Lookup.list_cases context u) (Lookup.list_cases context u'))
              same (Alike.list_cases-IsAlike part context u u') k)

  pub get_case-IsAlike :
      (id : Uuid)
      → IsAlike part tenant
          (get_case lib codecs state clock id headers w)
          (get_case lib codecs state clock id headers v)
  unfolding get_case authorized_tenant
  get_case-IsAlike id =
      continue-IsAlike part tenant _ _ _
        (authorized-IsAlike part tenant codecs state clock.seconds headers own
          (cases_read_scope ∷ []) w v h)
        λ (subject, context) u u' p k.
          let same =
            own_context part tenant codecs state clock.seconds headers own (cases_read_scope ∷ []) w
              u subject context p in
          continue-IsAlike part tenant _ _ _
            (raise_as-IsAlike part tenant cases _ _ u u' (
              subst
                (λ t.
                  Agree part t u u'
                  → IsAlike part t (Lookup.get_case context id u) (Lookup.get_case context id u'))
                same (Alike.get_case-IsAlike part context id u u') k))
            λ case u1 u1' p1 k1.
              continue-IsAlike part tenant _ _ _
                (raise_as-IsAlike part tenant cases _ _ u1 u1' (
                  subst
                    (λ t.
                      IsPartitioned part state.cases.pool t
                      → Agree part t u1 u1'
                      → IsAlike part t
                          (Lookup.record_access state.cases context subject case.id clock.now u1)
                          (Lookup.record_access state.cases context subject case.id clock.now u1'))
                    same
                    (λ a.
                      Alike.record_access-IsAlike part context state.cases a subject case.id
                        clock.now u1 u1')
                    apart k1))
                λ done u2 u2' p2 k2. finish-IsAlike part tenant ApiError _ u2 u2' k2

  pub create_case-IsAlike :
      (command : CreateCaseCommand)
      → IsAlike part tenant
          (create_case lib codecs state clock headers command w)
          (create_case lib codecs state clock headers command v)
  unfolding create_case
  create_case-IsAlike command =
      handling-IsAlike part tenant codecs state clock.seconds headers own
        (λ s c k. Mutations.create_case lib state.cases c s k command clock.now)
        (λ s c k u u' same agree.
          subst
            (λ t.
              IsPartitioned part state.cases.pool t
              → Agree part t u u'
              → IsAlike part t (Mutations.create_case lib state.cases c s k command clock.now u)
                  (Mutations.create_case lib state.cases c s k command clock.now u'))
            same
            (λ a g. Alike.create_case-IsAlike part c state.cases a s lib k clock.now u u' g command)
            apart agree)
        _ w v h

  pub transition_case-IsAlike :
      (id : Uuid) (command : TransitionCaseCommand)
      → IsAlike part tenant
          (transition_case lib codecs state clock id headers command w)
          (transition_case lib codecs state clock id headers command v)
  unfolding transition_case
  transition_case-IsAlike id command =
      handling-IsAlike part tenant codecs state clock.seconds headers own
        (λ s c k. Mutations.transition_case lib state.cases c s id k command clock.now)
        (λ s c k u u' same agree.
          subst
            (λ t.
              IsPartitioned part state.cases.pool t
              → Agree part t u u'
              → IsAlike part t
                  (Mutations.transition_case lib state.cases c s id k command clock.now u)
                  (Mutations.transition_case lib state.cases c s id k command clock.now u'))
            same
            (λ a g.
              Alike.transition_case-IsAlike part c state.cases a s lib k clock.now u u' g id
                command)
            apart agree)
        _ w v h

  pub rotate_encrypted_object-IsAlike :
      (id : Uuid) (command : RotateEncryptedObjectCommand)
      → IsAlike part tenant
          (rotate_encrypted_object lib codecs state clock id headers command w)
          (rotate_encrypted_object lib codecs state clock id headers command v)
  unfolding rotate_encrypted_object
  rotate_encrypted_object-IsAlike id command =
      handling-IsAlike part tenant codecs state clock.seconds headers own
        (λ s c k. Mutations.rotate_encrypted_object lib state.cases c s id k command clock.now)
        (λ s c k u u' same agree.
          subst
            (λ t.
              IsPartitioned part state.cases.pool t
              → Agree part t u u'
              → IsAlike part t
                  (Mutations.rotate_encrypted_object lib state.cases c s id k command clock.now u)
                  (Mutations.rotate_encrypted_object lib state.cases c s id k command clock.now u'))
            same
            (λ a g.
              Alike.rotate_encrypted_object-IsAlike part c state.cases a s lib k clock.now u u' g id
                command)
            apart agree)
        _ w v h
