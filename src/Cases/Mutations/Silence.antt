-- ===== src/Cases/Mutations/Silence.antt =====
-- The mutating operations of the case service publish nothing themselves.
use apme_api.Prelude.{◌∙◌}
use apme_api.Text.{Str}
use apme_api.Domain.{
  Uuid, Instant, VerifiedSubject, TenantContext, CreateCaseCommand, TransitionCaseCommand,
  RotateEncryptedObjectCommand, Interfaces,
}
use apme_api.Database.{MutationRow, World}
use apme_api.Database.Silence.{
  IsSilent, continue-IsSilent, lift-IsSilent, raise_as-IsSilent, finish-IsSilent, execute-IsSilent,
  read-IsSilent,
}
use apme_api.Cases.Errors.{CaseServiceError}
use apme_api.Cases.Service.{CaseService}
use apme_api.Cases.Lookup.Silence.{get_case-IsSilent}
use apme_api.Cases.Mutations.{
  mutation_result, create_case, transition_case, rotate_encrypted_object,
}

mutation_result-IsSilent :
    (context : TenantContext) (row : MutationRow) (w : World)
    → IsSilent w.published (mutation_result context row w)
unfolding mutation_result
mutation_result-IsSilent context row w =
    continue-IsSilent _ _ _ (get_case-IsSilent context row.case_id w) λ case u e.
      continue-IsSilent _ _ _ (raise_as-IsSilent _ _ _ u (read-IsSilent _ u ∙ e))
        λ event u1 e1. finish-IsSilent CaseServiceError _ u1 ∙ e1

module _ (lib : Interfaces) (self : CaseService) (context : TenantContext)
    (subject : VerifiedSubject) (key : Str) where
  pub create_case-IsSilent :
      (command : CreateCaseCommand) (now : Instant) (w : World)
      → IsSilent w.published (create_case lib self context subject key command now w)
  unfolding create_case
  create_case-IsSilent command now w = continue-IsSilent _ _ _ (lift-IsSilent _ w) λ hash u e.
      continue-IsSilent _ _ _ (raise_as-IsSilent _ _ _ u (execute-IsSilent _ u ∙ e))
        λ row u1 e1. mutation_result-IsSilent context row u1 ∙ e1

  pub transition_case-IsSilent :
      (case_id : Uuid) (command : TransitionCaseCommand) (now : Instant) (w : World)
      → IsSilent w.published (transition_case lib self context subject case_id key command now w)
  unfolding transition_case
  transition_case-IsSilent case_id command now w =
      continue-IsSilent _ _ _ (lift-IsSilent _ w) λ hash u e.
        continue-IsSilent _ _ _ (raise_as-IsSilent _ _ _ u (execute-IsSilent _ u ∙ e))
          λ row u1 e1. mutation_result-IsSilent context row u1 ∙ e1

  pub rotate_encrypted_object-IsSilent :
      (case_id : Uuid) (command : RotateEncryptedObjectCommand) (now : Instant) (w : World)
      → IsSilent w.published
          (rotate_encrypted_object lib self context subject case_id key command now w)
  unfolding rotate_encrypted_object
  rotate_encrypted_object-IsSilent case_id command now w =
      continue-IsSilent _ _ _ (lift-IsSilent _ w) λ hash u e.
        continue-IsSilent _ _ _ (raise_as-IsSilent _ _ _ u (execute-IsSilent _ u ∙ e))
          λ row u1 e1. mutation_result-IsSilent context row u1 ∙ e1
