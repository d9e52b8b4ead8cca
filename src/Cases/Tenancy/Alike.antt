-- ===== src/Cases/Tenancy/Alike.antt =====
-- The operations of a tenant answer by the rows of that tenant alone.
use apme_api.Prelude.{refl, ap, ok}
use apme_api.Text.{Str}
use apme_api.Domain.{
  Uuid, Instant, Bytes, VerifiedSubject, TenantContext, CreateCaseCommand, TransitionCaseCommand,
  RotateEncryptedObjectCommand, Interfaces,
}
use apme_api.Database.{MutationRow, World}
use apme_api.Database.Views.{
  Agree, IsAlike, continue-IsAlike, lift-IsAlike, finish-IsAlike, raise_as-IsAlike, execute-IsAlike,
  read-IsAlike,
}
use apme_api.Cases.Errors.{CaseServiceError}
use apme_api.Cases.Queries.Views.{
  select_context-view, case_select_list-view, case_select_one-view, select_event-view,
}
use apme_api.Cases.Service.{CaseService}
use apme_api.Cases.Lookup.{tenant_context, list_cases, get_case, record_access, access_args}
use apme_api.Cases.Mutations.{
  mutation_result, create_case, create_args, transition_case, transition_args,
  rotate_encrypted_object, rotate_args,
}
use apme_api.Cases.Tenancy.{IsPartitioned}

module _ (part : Uuid → Bytes → Bytes) (tenant : Uuid) where
  pub tenant_context-IsAlike :
      (subject : VerifiedSubject) (w v : World)
      → Agree part tenant w v
      → IsAlike part tenant (tenant_context subject tenant w) (tenant_context subject tenant v)
  unfolding tenant_context
  tenant_context-IsAlike subject w v h =
      continue-IsAlike part tenant _ _ _
        (raise_as-IsAlike part tenant _ _ _ w v (
          read-IsAlike part tenant _ w v
            (λ a b e. ap ok (select_context-view part tenant a b e subject.shared_user_id)) h))
        λ found u u' p k.
          continue-IsAlike part tenant _ _ _ (lift-IsAlike part tenant _ u u' k) λ row u1 u1' p1 k1.
            continue-IsAlike part tenant _ _ _ (lift-IsAlike part tenant _ u1 u1' k1)
              λ role u2 u2' p2 k2. finish-IsAlike part tenant CaseServiceError _ u2 u2' k2

module _ (part : Uuid → Bytes → Bytes) (context : TenantContext) where
  pub list_cases-IsAlike :
      (w v : World)
      → Agree part context.tenant_id w v
      → IsAlike part context.tenant_id (list_cases context w) (list_cases context v)
  unfolding list_cases
  list_cases-IsAlike w v h =
      continue-IsAlike part context.tenant_id _ _ _
        (raise_as-IsAlike part context.tenant_id _ _ _ w v (
          read-IsAlike part context.tenant_id _ w v
            (λ a b e. ap ok (case_select_list-view part context.tenant_id a b e)) h))
        λ rows u u' p k. lift-IsAlike part context.tenant_id _ u u' k

  pub get_case-IsAlike :
      (id : Uuid) (w v : World)
      → Agree part context.tenant_id w v
      → IsAlike part context.tenant_id (get_case context id w) (get_case context id v)
  unfolding get_case
  get_case-IsAlike id w v h =
      continue-IsAlike part context.tenant_id _ _ _
        (raise_as-IsAlike part context.tenant_id _ _ _ w v (
          read-IsAlike part context.tenant_id _ w v
            (λ a b e. ap ok (case_select_one-view part context.tenant_id a b e id)) h))
        λ found u u' p k.
          continue-IsAlike part context.tenant_id _ _ _
            (lift-IsAlike part context.tenant_id _ u u' k)
            λ row u1 u1' p1 k1. lift-IsAlike part context.tenant_id _ u1 u1' k1

  mutation_result-IsAlike :
      (row : MutationRow) (w v : World)
      → Agree part context.tenant_id w v
      → IsAlike part context.tenant_id
          (mutation_result context row w)
          (mutation_result context row v)
  unfolding mutation_result
  mutation_result-IsAlike row w v h =
      continue-IsAlike part context.tenant_id _ _ _ (get_case-IsAlike row.case_id w v h)
        λ case u u' p k.
          continue-IsAlike part context.tenant_id _ _ _
            (raise_as-IsAlike part context.tenant_id _ _ _ u u' (
              read-IsAlike part context.tenant_id _ u u'
                (λ a b e. select_event-view part context.tenant_id a b e row.event_id) k))
            λ event u1 u1' p1 k1. finish-IsAlike part context.tenant_id CaseServiceError _ u1 u1' k1

  module _ (self : CaseService) (apart : IsPartitioned part self.pool context.tenant_id)
      (subject : VerifiedSubject) where
    pub record_access-IsAlike :
        (id : Uuid) (now : Instant) (w v : World)
        → Agree part context.tenant_id w v
        → IsAlike part context.tenant_id
            (record_access self context subject id now w)
            (record_access self context subject id now v)
    unfolding record_access
    record_access-IsAlike id now w v h = raise_as-IsAlike part context.tenant_id _ _ _ w v (
        execute-IsAlike part context.tenant_id _ w v
          (apart.audit_own (access_args context subject id now) refl) h)

    module _ (lib : Interfaces) (key : Str) (now : Instant) (w v : World)
        (h : Agree part context.tenant_id w v) where
      pub create_case-IsAlike :
          (command : CreateCaseCommand)
          → IsAlike part context.tenant_id
              (create_case lib self context subject key command now w)
              (create_case lib self context subject key command now v)
      unfolding create_case
      create_case-IsAlike command =
          continue-IsAlike part context.tenant_id _ _ _
            (lift-IsAlike part context.tenant_id _ w v h)
            λ hash u u' p k.
              continue-IsAlike part context.tenant_id _ _ _
                (raise_as-IsAlike part context.tenant_id _ _ _ u u' (
                  execute-IsAlike part context.tenant_id _ u u'
                    (apart.create_own (create_args context subject key command hash now) refl) k))
                λ row u1 u1' p1 k1. mutation_result-IsAlike row u1 u1' k1

      pub transition_case-IsAlike :
          (id : Uuid) (command : TransitionCaseCommand)
          → IsAlike part context.tenant_id
              (transition_case lib self context subject id key command now w)
              (transition_case lib self context subject id key command now v)
      unfolding transition_case
      transition_case-IsAlike id command =
          continue-IsAlike part context.tenant_id _ _ _
            (lift-IsAlike part context.tenant_id _ w v h)
            λ hash u u' p k.
              continue-IsAlike part context.tenant_id _ _ _
                (raise_as-IsAlike part context.tenant_id _ _ _ u u' (
                  execute-IsAlike part context.tenant_id _ u u'
                    (apart.transition_own (transition_args context subject id key command hash now)
                      refl)
                    k))
                λ row u1 u1' p1 k1. mutation_result-IsAlike row u1 u1' k1

      pub rotate_encrypted_object-IsAlike :
          (id : Uuid) (command : RotateEncryptedObjectCommand)
          → IsAlike part context.tenant_id
              (rotate_encrypted_object lib self context subject id key command now w)
              (rotate_encrypted_object lib self context subject id key command now v)
      unfolding rotate_encrypted_object
      rotate_encrypted_object-IsAlike id command =
          continue-IsAlike part context.tenant_id _ _ _
            (lift-IsAlike part context.tenant_id _ w v h)
            λ hash u u' p k.
              continue-IsAlike part context.tenant_id _ _ _
                (raise_as-IsAlike part context.tenant_id _ _ _ u u' (
                  execute-IsAlike part context.tenant_id _ u u'
                    (apart.rotate_own (rotate_args context subject id key command hash now) refl)
                    k))
                λ row u1 u1' p1 k1. mutation_result-IsAlike row u1 u1' k1
