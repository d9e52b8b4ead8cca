-- ===== src/Api/Handlers/Served.antt =====
-- What stands behind every mutation that a handler answers with, and when its event is published.
use apme_api.Prelude.{ℕ, ◌≡◌, sym, ap, ◌⊎◌, inl, inr, true, false, ok, Bool-cases, if◌then◌else◌}
use apme_api.Text.{Str}
use apme_api.Domain.{
  Uuid, VerifiedSubject, TenantContext, CreateCaseCommand, TransitionCaseCommand,
  RotateEncryptedObjectCommand, CaseMutationResult, Interfaces,
}
use apme_api.Database.{World, Action}
use apme_api.Cases.Errors.{CaseServiceError}
use apme_api.Database.Silence.{IsSilent}
use apme_api.Http.{HeaderMap, Codecs}
use apme_api.Cases.Mutations
use apme_api.Cases.Mutations.Outcomes.{
  create_case_sound, transition_case_sound, rotate_encrypted_object_sound,
}
use apme_api.Cases.Mutations.Silence.{
  create_case-IsSilent, transition_case-IsSilent, rotate_encrypted_object-IsSilent,
}
use apme_api.Api.Access.{AppState}
use apme_api.Api.Handlers.Publication.{IsServed, served}
use apme_api.Api.Handlers.{Clock, create_case, transition_case, rotate_encrypted_object}

abbrev status_of : CaseMutationResult → ℕ × CaseMutationResult
status_of m = (if m.replayed then 200 else 201, m)

status_cases :
    (status : ℕ) (m n : CaseMutationResult)
    → (status, m) ≡ status_of n
    → (n ≡ m) × (((status ≡ 200) × (m.replayed ≡ true)) ⊎ ((status ≡ 201) × (m.replayed ≡ false)))
status_cases status m n e =
    let same : m ≡ n = ap (λ (r : ℕ × CaseMutationResult). r.1) e in
    let code : status ≡ (if n.replayed then 200 else 201) =
      ap (λ (r : ℕ × CaseMutationResult). r.0) e in
    (
      sym same,
      elim (Bool-cases n.replayed) [
        | inl b ↦ inl (rw b at code, rw same b)
        | inr b ↦ inr (rw b at code, rw same b)
      ],
    )

module _ (lib : Interfaces) (codecs : Codecs) (state : AppState) (clock : Clock)
    (headers : HeaderMap) where
  -- A creation is answered only as `IsServed` says, with `201 Created` for a new case and `200 OK`
  -- for a replay.
  pub create_case-IsServed :
      (command : CreateCaseCommand) (w w' : World) (status : ℕ) (m : CaseMutationResult)
      → create_case lib codecs state clock headers command w ≡ (ok (status, m), w')
      → IsServed codecs state clock.seconds headers
          (λ s c k. Mutations.create_case lib state.cases c s k command clock.now)
          w
          w'
          m
        × (((status ≡ 200) × (m.replayed ≡ true)) ⊎ ((status ≡ 201) × (m.replayed ≡ false)))
  unfolding create_case
  create_case-IsServed command w w' status m h =
      let (n, same, s) =
        served codecs state clock.seconds headers mutate silent own status_of w w' (status, m) h in
      let (e, code) = status_cases status m n same in (rw e at s, code)
    where
      mutate : VerifiedSubject → TenantContext → Str → Action CaseServiceError CaseMutationResult
      mutate s c k = Mutations.create_case lib state.cases c s k command clock.now

      own :
          (s : VerifiedSubject) (c : TenantContext) (k : Str) (w w' : World)
          (m : CaseMutationResult)
          → mutate s c k w ≡ (ok m, w')
          → (m.case.tenant_id ≡ c.tenant_id) × (m.event.tenant_id ≡ c.tenant_id)
      own s c k w w' m h =
          let (hash, row, u, passed, ran, answer) =
            create_case_sound lib state.cases c s k command clock.now w w' m h in
          (answer.case_tenant, answer.event_tenant)

      silent :
          (s : VerifiedSubject) (c : TenantContext) (k : Str) (w : World)
          → IsSilent w.published (mutate s c k w)
      silent s c k w = create_case-IsSilent lib state.cases c s k command clock.now w

  -- A transition is answered only as `IsServed` says.
  pub transition_case-IsServed :
      (id : Uuid) (command : TransitionCaseCommand) (w w' : World) (m : CaseMutationResult)
      → transition_case lib codecs state clock id headers command w ≡ (ok m, w')
      → IsServed codecs state clock.seconds headers
          (λ s c k. Mutations.transition_case lib state.cases c s id k command clock.now)
          w
          w'
          m
  unfolding transition_case
  transition_case-IsServed id command w w' m h =
      let (n, same, s) =
        served codecs state clock.seconds headers mutate silent own (λ m. m) w w' m h in
      rw (sym same) at s
    where
      mutate : VerifiedSubject → TenantContext → Str → Action CaseServiceError CaseMutationResult
      mutate s c k = Mutations.transition_case lib state.cases c s id k command clock.now

      own :
          (s : VerifiedSubject) (c : TenantContext) (k : Str) (w w' : World)
          (m : CaseMutationResult)
          → mutate s c k w ≡ (ok m, w')
          → (m.case.tenant_id ≡ c.tenant_id) × (m.event.tenant_id ≡ c.tenant_id)
      own s c k w w' m h =
          let (hash, row, u, passed, ran, answer) =
            transition_case_sound lib state.cases c s k id command clock.now w w' m h in
          (answer.case_tenant, answer.event_tenant)

      silent :
          (s : VerifiedSubject) (c : TenantContext) (k : Str) (w : World)
          → IsSilent w.published (mutate s c k w)
      silent s c k w = transition_case-IsSilent lib state.cases c s k id command clock.now w

  -- A rotation is answered only as `IsServed` says.
  pub rotate_encrypted_object-IsServed :
      (id : Uuid) (command : RotateEncryptedObjectCommand) (w w' : World) (m : CaseMutationResult)
      → rotate_encrypted_object lib codecs state clock id headers command w ≡ (ok m, w')
      → IsServed codecs state clock.seconds headers
          (λ s c k. Mutations.rotate_encrypted_object lib state.cases c s id k command clock.now)
          w
          w'
          m
  unfolding rotate_encrypted_object
  rotate_encrypted_object-IsServed id command w w' m h =
      let (n, same, s) =
        served codecs state clock.seconds headers mutate silent own (λ m. m) w w' m h in
      rw (sym same) at s
    where
      mutate : VerifiedSubject → TenantContext → Str → Action CaseServiceError CaseMutationResult
      mutate s c k = Mutations.rotate_encrypted_object lib state.cases c s id k command clock.now

      own :
          (s : VerifiedSubject) (c : TenantContext) (k : Str) (w w' : World)
          (m : CaseMutationResult)
          → mutate s c k w ≡ (ok m, w')
          → (m.case.tenant_id ≡ c.tenant_id) × (m.event.tenant_id ≡ c.tenant_id)
      own s c k w w' m h =
          let (hash, row, u, passed, ran, answer) =
            rotate_encrypted_object_sound lib state.cases c s k id command clock.now w w' m h in
          (answer.case_tenant, answer.event_tenant)

      silent :
          (s : VerifiedSubject) (c : TenantContext) (k : Str) (w : World)
          → IsSilent w.published (mutate s c k w)
      silent s c k w = rotate_encrypted_object-IsSilent lib state.cases c s k id command clock.now w
