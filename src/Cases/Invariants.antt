-- ===== src/Cases/Invariants.antt =====
-- Procedures that keep what holds of the tables, and the operations of `CaseService`, which then do too.
use apme_api.Text.{Str}
use apme_api.Domain.{
  Uuid, Instant, VerifiedSubject, TenantContext, CreateCaseCommand, TransitionCaseCommand,
  RotateEncryptedObjectCommand, Interfaces,
}
use apme_api.Database.{
  Tables, Pool, CreateArgs, TransitionArgs, RotateArgs, AuditArgs, MutationRow, World, lift,
  raise_as, finish,
}
use apme_api.Database.Invariants.{
  Keeps, IsSteady, IsKept, continue-IsKept, execute-IsKept, read-IsKept,
}
use apme_api.Cases.Service.{CaseService}
use apme_api.Cases.Lookup.{tenant_context, list_cases, get_case, record_access, access_args}
use apme_api.Cases.Mutations.{
  mutation_result, create_case, create_args, transition_case, transition_args,
  rotate_encrypted_object, rotate_args,
}

-- For a tenant of `T` each procedure keeps it.
pub record IsKeeping (K : Tables → Type 0) (T : Uuid → Type 0) (pool : Pool) : Type 0 where
  pub create : (args : CreateArgs) → T args.tenant_id → Keeps K (pool.create_case args)
  pub transition : (args : TransitionArgs) → T args.tenant_id → Keeps K (pool.transition_case args)
  pub rotate : (args : RotateArgs) → T args.tenant_id → Keeps K (pool.rotate_case_object args)
  pub audit : (args : AuditArgs) → T args.tenant_id → Keeps K (pool.append_audit args)

module _ (K : Tables → Type 0) where
  pub tenant_context-IsKept :
      (subject : VerifiedSubject) (id : Uuid) (w : World)
      → K w.tables
      → IsSteady K w.schedule
      → IsKept K (tenant_context subject id w)
  unfolding tenant_context lift raise_as finish
  tenant_context-IsKept subject id w e h =
      continue-IsKept K _ _ (read-IsKept K _ w e h) λ found u p e1 h1.
        continue-IsKept K _ _ (e1, h1)
          λ row u1 p1 e2 h2. continue-IsKept K _ _ (e2, h2) λ role u2 p2 e3 h3. (e3, h3)

  pub list_cases-IsKept :
      (context : TenantContext) (w : World)
      → K w.tables
      → IsSteady K w.schedule
      → IsKept K (list_cases context w)
  unfolding list_cases lift raise_as
  list_cases-IsKept context w e h =
      continue-IsKept K _ _ (read-IsKept K _ w e h) λ found u p e1 h1. (e1, h1)

  pub get_case-IsKept :
      (context : TenantContext) (id : Uuid) (w : World)
      → K w.tables
      → IsSteady K w.schedule
      → IsKept K (get_case context id w)
  unfolding get_case lift raise_as
  get_case-IsKept context id w e h =
      continue-IsKept K _ _ (read-IsKept K _ w e h)
        λ found u p e1 h1. continue-IsKept K _ _ (e1, h1) λ row u1 p1 e2 h2. (e2, h2)

  mutation_result-IsKept :
      (context : TenantContext) (row : MutationRow) (w : World)
      → K w.tables
      → IsSteady K w.schedule
      → IsKept K (mutation_result context row w)
  unfolding mutation_result raise_as finish
  mutation_result-IsKept context row w e h =
      continue-IsKept K _ _ (get_case-IsKept context row.case_id w e h) λ case u p e1 h1.
        continue-IsKept K _ _ (read-IsKept K _ u e1 h1) λ event u1 p1 e2 h2. (e2, h2)

  module _ (self : CaseService) (T : Uuid → Type 0) (keeps : IsKeeping K T self.pool)
      (context : TenantContext) (mine : T context.tenant_id) (subject : VerifiedSubject) where
    pub record_access-IsKept :
        (id : Uuid) (now : Instant) (w : World)
        → K w.tables
        → IsSteady K w.schedule
        → IsKept K (record_access self context subject id now w)
    unfolding record_access raise_as
    record_access-IsKept id now w e h =
        execute-IsKept K _ w (keeps.audit (access_args context subject id now) mine) e h

    module _ (lib : Interfaces) (key : Str) (now : Instant) (w : World) (e : K w.tables)
        (h : IsSteady K w.schedule) where
      pub create_case-IsKept :
          (command : CreateCaseCommand)
          → IsKept K (create_case lib self context subject key command now w)
      unfolding create_case lift raise_as
      create_case-IsKept command =
          continue-IsKept K _ _ (e, h)
            λ hash u p e1 h1.
              continue-IsKept K _ _
                (execute-IsKept K _ u
                  (keeps.create (create_args context subject key command hash now) mine) e1 h1)
                λ row u1 p1 e2 h2. mutation_result-IsKept context row u1 e2 h2

      pub transition_case-IsKept :
          (id : Uuid) (command : TransitionCaseCommand)
          → IsKept K (transition_case lib self context subject id key command now w)
      unfolding transition_case lift raise_as
      transition_case-IsKept id command =
          continue-IsKept K _ _ (e, h)
            λ hash u p e1 h1.
              continue-IsKept K _ _
                (execute-IsKept K _ u
                  (keeps.transition (transition_args context subject id key command hash now) mine)
                  e1 h1)
                λ row u1 p1 e2 h2. mutation_result-IsKept context row u1 e2 h2

      pub rotate_encrypted_object-IsKept :
          (id : Uuid) (command : RotateEncryptedObjectCommand)
          → IsKept K (rotate_encrypted_object lib self context subject id key command now w)
      unfolding rotate_encrypted_object lift raise_as
      rotate_encrypted_object-IsKept id command =
          continue-IsKept K _ _ (e, h)
            λ hash u p e1 h1.
              continue-IsKept K _ _
                (execute-IsKept K _ u
                  (keeps.rotate (rotate_args context subject id key command hash now) mine) e1 h1)
                λ row u1 p1 e2 h2. mutation_result-IsKept context row u1 e2 h2
