-- ===== src/Api/Handlers/Fresh.antt =====
-- The event of a mutation that a handler answers with is new, unless the mutation is a replay.
use apme_api.Prelude.{ℕ, ◌≡◌, sym, ap, ◌∙◌, inl, inr, List, [], ◌∷◌, false, Bool-cases, Result, ok}
use mathlib.Core.Path.{subst}
use apme_api.Text.{Str}
use apme_api.Domain.{
  Uuid, VerifiedSubject, TenantContext, CreateCaseCommand, TransitionCaseCommand,
  RotateEncryptedObjectCommand, CaseMutationResult, Interfaces,
}
use apme_api.Database.{World, Action, later_turns, read, execute, finish}
use apme_api.Database.Frames.{continue-eq-ok, finish-eq-ok, raise_as-eq-ok, lift-then-eq-ok}
use apme_api.Http.{HeaderMap, Codecs}
use apme_api.Auth.Session.{cases_write_scope}
use apme_api.Cases.Errors.{CaseServiceError}
use apme_api.Cases.Lookup.{tenant_context}
use apme_api.Cases.Mutations
use apme_api.Cases.Mutations.Fresh.{
  AllStored, lasting-IsSteady, next-IsLasting, IsLasting, IsLedger, IsNew,
}
use apme_api.Cases.Mutations.Fresh
use apme_api.Api.Errors.{ApiError, cases}
use apme_api.Api.Access.{AppState, authorized_tenant_with_scopes}
use apme_api.Api.Handlers.{
  Clock, publish_mutation, publish_unless_replayed, create_case, transition_case,
  rotate_encrypted_object,
}
use apme_api.Api.Handlers.Publication.{handling}
use apme_api.Api.Handlers.Invariants.{authorized-IsKept}

publish-tables :
    (m : CaseMutationResult) (w w' : World) {done : Unit {0}}
    → publish_unless_replayed m w ≡ (ok done, w')
    → w.tables ≡ w'.tables
unfolding publish_unless_replayed publish_mutation finish
publish-tables m w w' h = elim (Bool-cases m.replayed) [
  | inl e ↦ ap (λ (r : Result ApiError (Unit {0}) × World). r.1.tables) (rw e at h)
  | inr e ↦ ap (λ (r : Result ApiError (Unit {0}) × World). r.1.tables) (rw e at h)
]

-- Authorization runs one statement.
tenant_context-schedule :
    (subject : VerifiedSubject) (id : Uuid) (w w' : World) {context : TenantContext}
    → tenant_context subject id w ≡ (ok context, w')
    → w'.schedule ≡ later_turns w.schedule
unfolding tenant_context read execute
tenant_context-schedule subject id w w' h =
    let (found, u, p, q) = continue-eq-ok _ _ h in
    let first : later_turns w.schedule ≡ u.schedule =
      ap (λ r. r.1.schedule) (raise_as-eq-ok _ _ w p) in
    let (row, a, q1) = lift-then-eq-ok _ _ u q in
    let (role, b, q2) = lift-then-eq-ok _ _ u q1 in
    let (made, last) = finish-eq-ok _ u q2 in ap (λ (v : World). v.schedule) (sym last) ∙ sym first

authorized-schedule :
    (codecs : Codecs) (state : AppState) (headers : HeaderMap) (scopes : List Str) (seconds : ℕ)
    (w w' : World) {found : VerifiedSubject × TenantContext}
    → authorized_tenant_with_scopes codecs state headers scopes seconds w ≡ (ok found, w')
    → w'.schedule ≡ later_turns w.schedule
unfolding authorized_tenant_with_scopes
authorized-schedule codecs state headers scopes seconds w w' h =
    let (subject, a, q) = lift-then-eq-ok _ _ w h in
    let (id, b, q1) = lift-then-eq-ok _ _ w q in
    let (context, u, p, q2) = continue-eq-ok _ _ q1 in
    let (made, last) = finish-eq-ok _ u q2 in
    let later = tenant_context-schedule subject id w u (raise_as-eq-ok cases _ w p) in
    ap (λ (v : World). v.schedule) (sym last) ∙ later

module _ (ids : List Uuid) (codecs : Codecs) (state : AppState) (seconds : ℕ) (headers : HeaderMap)
    (mutate : VerifiedSubject → TenantContext → Str → Action CaseServiceError CaseMutationResult)
    (new : (s : VerifiedSubject) (c : TenantContext) (k : Str) (w w' : World)
      → AllStored ids w.tables
      → IsLasting w.schedule
      → (m : CaseMutationResult) → m.replayed ≡ false
      → mutate s c k w ≡ (ok m, w')
      → IsNew ids m.event.event_id w'.tables) where
  handling-IsNew :
      {B : Type 0} (respond : CaseMutationResult → B) (w w' : World) (b : B)
      → AllStored ids w.tables
      → IsLasting w.schedule
      → handling codecs state seconds headers mutate respond w ≡ (ok b, w')
      → (m : CaseMutationResult) × (b ≡ respond m)
        × (m.replayed ≡ false → IsNew ids m.event.event_id w'.tables)
  handling-IsNew respond w w' b told lasting h =
      let (front, w1, p, h1) = continue-eq-ok _ _ h in
      let (subject, context) = front in
      let (key, keyed, h2) = lift-then-eq-ok _ _ w1 h1 in
      let (m, w2, q, h3) = continue-eq-ok _ _ h2 in
      let (done, w3, r, h4) = continue-eq-ok _ _ h3 in
      let (made, last) = finish-eq-ok _ w3 h4 in
      let ran = raise_as-eq-ok cases _ w1 q in
      let later =
        authorized-schedule codecs state headers (cases_write_scope ∷ []) seconds w w1 p in
      let kept =
        authorized-IsKept (AllStored ids) codecs state seconds headers (cases_write_scope ∷ []) w
          told (lasting-IsSteady ids w.schedule lasting) in
      let same : w2.tables ≡ w'.tables =
        publish-tables m w2 w3 r ∙ ap (λ (u : World). u.tables) last in
      (
        m,
        sym made,
        λ fresh.
            subst (λ t. IsNew ids m.event.event_id t) same
              (new subject context key w1 w2 (rw p at kept).0
                (subst (λ turns. IsLasting turns) (sym later) (next-IsLasting w.schedule lasting).1)
                m fresh ran),
      )

module _ (ids : List Uuid) (lib : Interfaces) (codecs : Codecs) (state : AppState)
    (ledger : IsLedger state.cases.pool) (clock : Clock) (headers : HeaderMap) (w w' : World)
    (told : AllStored ids w.tables) (lasting : IsLasting w.schedule) where
  pub create_case-IsNew :
      (command : CreateCaseCommand) (status : ℕ) (m : CaseMutationResult)
      → create_case lib codecs state clock headers command w ≡ (ok (status, m), w')
      → m.replayed ≡ false
      → IsNew ids m.event.event_id w'.tables
  unfolding create_case
  create_case-IsNew command status m h fresh =
      let (n, made, new) =
        handling-IsNew ids codecs state clock.seconds headers
          (λ s c k. Mutations.create_case lib state.cases c s k command clock.now)
          (λ s c k u u' t l n f ran.
            Fresh.create_case-IsNew ids lib state.cases ledger c s k clock.now u u' t l n f command
              ran)
          _ w w' (status, m) told lasting h in
      let same : m ≡ n = ap (λ (r : ℕ × CaseMutationResult). r.1) made in
      subst (λ (x : CaseMutationResult). IsNew ids x.event.event_id w'.tables) (sym same)
        (new (ap (λ (x : CaseMutationResult). x.replayed) (sym same) ∙ fresh))

  pub transition_case-IsNew :
      (id : Uuid) (command : TransitionCaseCommand) (m : CaseMutationResult)
      → transition_case lib codecs state clock id headers command w ≡ (ok m, w')
      → m.replayed ≡ false
      → IsNew ids m.event.event_id w'.tables
  unfolding transition_case
  transition_case-IsNew id command m h fresh =
      let (n, same, new) =
        handling-IsNew ids codecs state clock.seconds headers
          (λ s c k. Mutations.transition_case lib state.cases c s id k command clock.now)
          (λ s c k u u' t l n f ran.
            Fresh.transition_case-IsNew ids lib state.cases ledger c s k clock.now u u' t l n f id
              command ran)
          (λ n. n) w w' m told lasting h in
      subst (λ (x : CaseMutationResult). IsNew ids x.event.event_id w'.tables) (sym same)
        (new (ap (λ (x : CaseMutationResult). x.replayed) (sym same) ∙ fresh))

  pub rotate_encrypted_object-IsNew :
      (id : Uuid) (command : RotateEncryptedObjectCommand) (m : CaseMutationResult)
      → rotate_encrypted_object lib codecs state clock id headers command w ≡ (ok m, w')
      → m.replayed ≡ false
      → IsNew ids m.event.event_id w'.tables
  unfolding rotate_encrypted_object
  rotate_encrypted_object-IsNew id command m h fresh =
      let (n, same, new) =
        handling-IsNew ids codecs state clock.seconds headers
          (λ s c k. Mutations.rotate_encrypted_object lib state.cases c s id k command clock.now)
          (λ s c k u u' t l n f ran.
            Fresh.rotate_encrypted_object-IsNew ids lib state.cases ledger c s k clock.now u u' t l
              n f id command ran)
          (λ n. n) w w' m told lasting h in
      subst (λ (x : CaseMutationResult). IsNew ids x.event.event_id w'.tables) (sym same)
        (new (ap (λ (x : CaseMutationResult). x.replayed) (sym same) ∙ fresh))
