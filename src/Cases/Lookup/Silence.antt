-- ===== src/Cases/Lookup/Silence.antt =====
-- The reads publish nothing.
use apme_api.Prelude.{◌∙◌}
use apme_api.Domain.{Uuid, Instant, VerifiedSubject, TenantContext}
use apme_api.Database.{World}
use apme_api.Database.Silence.{
  IsSilent, continue-IsSilent, lift-IsSilent, raise_as-IsSilent, finish-IsSilent, read-IsSilent,
  execute-IsSilent,
}
use apme_api.Cases.Errors.{CaseServiceError}
use apme_api.Cases.Service.{CaseService}
use apme_api.Cases.Lookup.{tenant_context, get_case, list_cases, record_access}

pub tenant_context-IsSilent :
    (subject : VerifiedSubject) (tenant_id : Uuid) (w : World)
    → IsSilent w.published (tenant_context subject tenant_id w)
unfolding tenant_context
tenant_context-IsSilent subject tenant_id w =
    continue-IsSilent _ _ _ (raise_as-IsSilent _ _ _ w (read-IsSilent _ w)) λ found u e.
      continue-IsSilent _ _ _ (lift-IsSilent _ u ∙ e) λ row u1 e1.
        continue-IsSilent _ _ _ (lift-IsSilent _ u1 ∙ e1)
          λ role u2 e2. finish-IsSilent CaseServiceError _ u2 ∙ e2

pub get_case-IsSilent :
    (context : TenantContext) (case_id : Uuid) (w : World)
    → IsSilent w.published (get_case context case_id w)
unfolding get_case
get_case-IsSilent context case_id w =
    continue-IsSilent _ _ _ (raise_as-IsSilent _ _ _ w (read-IsSilent _ w)) λ found u e.
      continue-IsSilent _ _ _ (lift-IsSilent _ u ∙ e) λ row u1 e1. lift-IsSilent _ u1 ∙ e1

pub list_cases-IsSilent :
    (context : TenantContext) (w : World) → IsSilent w.published (list_cases context w)
unfolding list_cases
list_cases-IsSilent context w =
    continue-IsSilent _ _ _ (raise_as-IsSilent _ _ _ w (read-IsSilent _ w))
      λ rows u e. lift-IsSilent _ u ∙ e

pub record_access-IsSilent :
    (self : CaseService) (context : TenantContext) (subject : VerifiedSubject) (id : Uuid)
    (now : Instant) (w : World)
    → IsSilent w.published (record_access self context subject id now w)
unfolding record_access
record_access-IsSilent self context subject id now w =
    raise_as-IsSilent _ _ _ w (execute-IsSilent _ w)
