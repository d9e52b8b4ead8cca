-- ===== src/Cases/Mutations/Outcomes.antt =====
-- What a mutation that succeeds has done, and what one that is refused has not.
use apme_api.Prelude.{◌≡◌, ok, err, arith}
use apme_api.Text.{Str}
use apme_api.Domain.{
  Uuid, Instant, Bytes, VerifiedSubject, TenantContext, CreateCaseCommand, TransitionCaseCommand,
  RotateEncryptedObjectCommand, CaseMutationResult, Interfaces, PersistedCase,
}
use apme_api.Database.{
  SqlError, EventRow, MutationRow, World, Action, Query, continue, lift, raise_as, current, execute,
}
use apme_api.Database.Frames.{continue-eq-ok, finish-eq-ok, raise_as-eq-ok, lift-eq-ok, read-eq-ok}
use apme_api.Cases.Errors.{CaseServiceError, map_sql_error}
use apme_api.Cases.Mutations.Requests.{
  IsCreation, prepare_create_iff, IsTransition, prepare_transition_iff, IsRotation,
  prepare_rotate_iff,
}
use apme_api.Cases.Queries.Order.{select_event_sound}
use apme_api.Cases.Service.{CaseService}
use apme_api.Cases.Lookup.Isolation.{get_case_sound}
use apme_api.Cases.Mutations.{
  mutation_result, prepare_create, create_case, create_args, prepare_transition, transition_case,
  transition_args, prepare_rotate, rotate_encrypted_object, rotate_args, receipt,
}

-- The answer is about the row that the procedure returned, and all of it is the context's tenant's.
pub record IsAnswer (context : TenantContext) (row : MutationRow) (m : CaseMutationResult)
    : Type 0 where
  pub case_tenant : m.case.tenant_id ≡ context.tenant_id
  pub case_id : m.case.id ≡ row.case_id
  pub event_tenant : m.event.tenant_id ≡ context.tenant_id
  pub event_id : m.event.event_id ≡ row.event_id
  pub event_hash : m.event.event_hash ≡ row.event_hash
  pub replayed : m.replayed ≡ row.replayed

answered :
    {context : TenantContext} {row : MutationRow} (case : PersistedCase) (event : EventRow)
    (m : CaseMutationResult)
    → ◌≡◌ {A = CaseMutationResult}
        (record { case = case; event = receipt row event; replayed = row.replayed })
        m
    → case.tenant_id ≡ context.tenant_id
    → case.id ≡ row.case_id
    → event.tenant_id ≡ context.tenant_id
    → IsAnswer context row m
answered case event m made a b c = ground arith

pub mutation_result-IsAnswer :
    (context : TenantContext) (row : MutationRow) (w w' : World) (m : CaseMutationResult)
    → mutation_result context row w ≡ (ok m, w')
    → IsAnswer context row m
unfolding mutation_result
mutation_result-IsAnswer context row w w' m h =
    let (case, u, p, q) = continue-eq-ok _ _ h in
    let (_, case_tenant, case_id, _) = get_case_sound context row.case_id w u case p in
    let (event, u1, p1, q1) = continue-eq-ok _ _ q in
    let (_, event_tenant, _) =
      select_event_sound context.tenant_id row.event_id (current u)
        (read-eq-ok _ u (raise_as-eq-ok _ _ u p1)) in
    answered case event m (finish-eq-ok _ u1 q1).0 case_tenant case_id event_tenant

-- A statement's failure is read by `map_sql_error`.
failed_statement :
    {A B : Type 0} (q : Query A) (f : A → Action CaseServiceError B) (w : World) {e : SqlError}
    {u : World}
    → execute q w ≡ (err e, u)
    → continue (raise_as map_sql_error (execute q) w) f ≡ (err (map_sql_error e), u)
unfolding raise_as continue
failed_statement q f w h = rw h

module _ (lib : Interfaces) (self : CaseService) (context : TenantContext)
    (subject : VerifiedSubject) (key : Str) where
  -- A creation that succeeds passed every guard, ran its procedure once with the arguments of the
  -- request and the hash of its serialisation, and answers with the row that the procedure returned.
  pub create_case_sound :
      (command : CreateCaseCommand) (now : Instant) (w w' : World) (m : CaseMutationResult)
      → create_case lib self context subject key command now w ≡ (ok m, w')
      → (hash : Bytes) × (row : MutationRow) × (u : World) × IsCreation lib context key hash command
          now
        × (execute (self.pool.create_case (create_args context subject key command hash now)) w
            ≡ (ok row, u))
        × IsAnswer context row m
  unfolding create_case
  create_case_sound command now w w' m h =
      let (hash, w1, p, q) = continue-eq-ok _ _ h in
      let (passed, same) = lift-eq-ok _ w p in
      let (row, u, p1, q1) = continue-eq-ok _ _ q in
      let ran = raise_as-eq-ok map_sql_error _ w1 p1 in
      (
        hash,
        row,
        u,
        (prepare_create_iff lib context key hash command now).0 passed,
        rw same ran,
        mutation_result-IsAnswer context row u w' m q1,
      )

  -- A creation that a guard refuses answers with the guard's error and runs no statement.
  create_case_refused :
      (command : CreateCaseCommand) (now : Instant) (w : World) (e : CaseServiceError)
      → prepare_create lib context key command now ≡ err e
      → create_case lib self context subject key command now w ≡ (err e, w)
  unfolding create_case continue lift
  create_case_refused command now w e h = rw h

  -- A creation whose procedure fails answers with the reading of that failure, and runs nothing after it.
  create_case_failed :
      (command : CreateCaseCommand) (now : Instant) (w u : World) (hash : Bytes) (e : SqlError)
      → prepare_create lib context key command now ≡ ok hash
      → execute (self.pool.create_case (create_args context subject key command hash now)) w
        ≡ (err e, u)
      → create_case lib self context subject key command now w ≡ (err (map_sql_error e), u)
  unfolding create_case continue lift
  create_case_failed command now w u hash e h x = rw h (failed_statement _ _ w x)

  -- A transition that succeeds passed every guard, ran its procedure once with the arguments of the
  -- request and the hash of its serialisation, and answers with the row that the procedure returned.
  pub transition_case_sound :
      (case_id : Uuid) (command : TransitionCaseCommand) (now : Instant) (w w' : World)
      (m : CaseMutationResult)
      → transition_case lib self context subject case_id key command now w ≡ (ok m, w')
      → (hash : Bytes) × (row : MutationRow) × (u : World) × IsTransition lib context key hash
          case_id command
        × (execute
              (self.pool.transition_case
                (transition_args context subject case_id key command hash now))
              w
            ≡ (ok row, u))
        × IsAnswer context row m
  unfolding transition_case
  transition_case_sound case_id command now w w' m h =
      let (hash, w1, p, q) = continue-eq-ok _ _ h in
      let (passed, same) = lift-eq-ok _ w p in
      let (row, u, p1, q1) = continue-eq-ok _ _ q in
      let ran = raise_as-eq-ok map_sql_error _ w1 p1 in
      (
        hash,
        row,
        u,
        (prepare_transition_iff lib context key hash case_id command).0 passed,
        rw same ran,
        mutation_result-IsAnswer context row u w' m q1,
      )

  -- A transition that a guard refuses answers with the guard's error and runs no statement.
  pub transition_case_refused :
      (case_id : Uuid) (command : TransitionCaseCommand) (now : Instant) (w : World)
      (e : CaseServiceError)
      → prepare_transition lib context case_id key command ≡ err e
      → transition_case lib self context subject case_id key command now w ≡ (err e, w)
  unfolding transition_case continue lift
  transition_case_refused case_id command now w e h = rw h

  -- A transition whose procedure fails answers with the reading of that failure, and runs nothing after it.
  pub transition_case_failed :
      (case_id : Uuid) (command : TransitionCaseCommand) (now : Instant) (w u : World)
      (hash : Bytes) (e : SqlError)
      → prepare_transition lib context case_id key command ≡ ok hash
      → execute
          (self.pool.transition_case (transition_args context subject case_id key command hash now))
          w
        ≡ (err e, u)
      → transition_case lib self context subject case_id key command now w
        ≡ (err (map_sql_error e), u)
  unfolding transition_case continue lift
  transition_case_failed case_id command now w u hash e h x = rw h (failed_statement _ _ w x)

  -- A rotation that succeeds passed every guard, ran its procedure once with the arguments of the
  -- request and the hash of its serialisation, and answers with the row that the procedure returned.
  pub rotate_encrypted_object_sound :
      (case_id : Uuid) (command : RotateEncryptedObjectCommand) (now : Instant) (w w' : World)
      (m : CaseMutationResult)
      → rotate_encrypted_object lib self context subject case_id key command now w ≡ (ok m, w')
      → (hash : Bytes) × (row : MutationRow) × (u : World) × IsRotation lib context key hash case_id
          command
        × (execute
              (self.pool.rotate_case_object
                (rotate_args context subject case_id key command hash now))
              w
            ≡ (ok row, u))
        × IsAnswer context row m
  unfolding rotate_encrypted_object
  rotate_encrypted_object_sound case_id command now w w' m h =
      let (hash, w1, p, q) = continue-eq-ok _ _ h in
      let (passed, same) = lift-eq-ok _ w p in
      let (row, u, p1, q1) = continue-eq-ok _ _ q in
      let ran = raise_as-eq-ok map_sql_error _ w1 p1 in
      (
        hash,
        row,
        u,
        (prepare_rotate_iff lib context key hash case_id command).0 passed,
        rw same ran,
        mutation_result-IsAnswer context row u w' m q1,
      )

  -- A rotation that a guard refuses answers with the guard's error and runs no statement.
  pub rotate_encrypted_object_refused :
      (case_id : Uuid) (command : RotateEncryptedObjectCommand) (now : Instant) (w : World)
      (e : CaseServiceError)
      → prepare_rotate lib context case_id key command ≡ err e
      → rotate_encrypted_object lib self context subject case_id key command now w ≡ (err e, w)
  unfolding rotate_encrypted_object continue lift
  rotate_encrypted_object_refused case_id command now w e h = rw h

  -- A rotation whose procedure fails answers with the reading of that failure, and runs nothing after it.
  pub rotate_encrypted_object_failed :
      (case_id : Uuid) (command : RotateEncryptedObjectCommand) (now : Instant) (w u : World)
      (hash : Bytes) (e : SqlError)
      → prepare_rotate lib context case_id key command ≡ ok hash
      → execute
          (self.pool.rotate_case_object (rotate_args context subject case_id key command hash now))
          w
        ≡ (err e, u)
      → rotate_encrypted_object lib self context subject case_id key command now w
        ≡ (err (map_sql_error e), u)
  unfolding rotate_encrypted_object continue lift
  rotate_encrypted_object_failed case_id command now w u hash e h x =
      rw h (failed_statement _ _ w x)
