-- ===== src/Cases/Tenancy.antt =====
-- Procedures that keep to the tenant that they are given, and what the operations of `CaseService` then
-- answer.
pub mod Alike
use apme_api.Prelude.{◌≡◌, ◌≢◌}
use apme_api.Domain.{Uuid, Bytes}
use apme_api.Database.{CreateArgs, TransitionArgs, RotateArgs, AuditArgs, Pool}
use apme_api.Database.Views.{IsSeparate, IsElsewhere}

-- What the program relies on: for its own tenant a procedure looks at nothing but the rows of that
-- tenant, and for another tenant it leaves the rows of this one as they are.
pub record IsPartitioned (part : Uuid → Bytes → Bytes) (pool : Pool) (tenant : Uuid) : Type 0 where
  pub create_own :
      (args : CreateArgs) → args.tenant_id ≡ tenant → IsSeparate part tenant (pool.create_case args)
  pub create_other :
      (args : CreateArgs)
      → args.tenant_id ≢ tenant
      → IsElsewhere part tenant (pool.create_case args)
  pub transition_own :
      (args : TransitionArgs)
      → args.tenant_id ≡ tenant
      → IsSeparate part tenant (pool.transition_case args)
  pub transition_other :
      (args : TransitionArgs)
      → args.tenant_id ≢ tenant
      → IsElsewhere part tenant (pool.transition_case args)
  pub rotate_own :
      (args : RotateArgs)
      → args.tenant_id ≡ tenant
      → IsSeparate part tenant (pool.rotate_case_object args)
  pub rotate_other :
      (args : RotateArgs)
      → args.tenant_id ≢ tenant
      → IsElsewhere part tenant (pool.rotate_case_object args)
  pub audit_own :
      (args : AuditArgs) → args.tenant_id ≡ tenant → IsSeparate part tenant (pool.append_audit args)
  pub audit_other :
      (args : AuditArgs)
      → args.tenant_id ≢ tenant
      → IsElsewhere part tenant (pool.append_audit args)
