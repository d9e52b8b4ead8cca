-- ===== src/Api/Handlers/Publication.antt =====
-- Which events the handlers publish.
use apme_api.Prelude.{
  ℕ, ◌≡◌, sym, ap, ◌∙◌, ◌⊎◌, inl, inr, true, false, List, [], ◌∷◌, ◌++◌, Result, ok, err, arith,
  Bool-cases,
}
use apme_api.Text.{Str}
use apme_api.Domain.{VerifiedSubject, TenantContext, CaseMutationResult}
use apme_api.Database.{TenantEvent, World, Action, ◌>>=◌, ◌>>◌, lift, raise_as, continue, finish}
use apme_api.Cases.Errors.{CaseServiceError}
use apme_api.Database.Frames.{
  continue-eq-ok, continue-eq-err, finish-eq-ok, raise_as-eq-ok, lift-then-eq-ok,
}
use apme_api.Database.Silence.{IsSilent, lift-IsSilent, raise_as-IsSilent}
use apme_api.Http.{HeaderMap, Codecs}
use apme_api.Auth.Session.{cases_write_scope}
use apme_api.Auth.Service.Outcomes.{IsAuthenticated}
use apme_api.Api.Errors.{ApiError, cases}
use apme_api.Api.Access.{AppState, tenant_id, idempotency_key, authorized_tenant_with_scopes}
use apme_api.Api.Access.Membership.{
  IsGranted, authorized_tenant_with_scopes_sound, authorized_tenant_with_scopes-IsSilent,
}
use apme_api.Api.Handlers.{event_of, publish_mutation, publish_unless_replayed}

-- A replay publishes nothing, any other mutation its one event, after all earlier ones.
abbrev pub IsPublished : CaseMutationResult → List TenantEvent → List TenantEvent → Type 0
IsPublished m before after =
    ((m.replayed ≡ true) × (after ≡ before))
    ⊎ ((m.replayed ≡ false) × (after ≡ before ++ event_of m ∷ []))

published :
    (m : CaseMutationResult) (w w' : World) {done : Unit {0}}
    → publish_unless_replayed m w ≡ (ok done, w')
    → IsPublished m w.published w'.published
unfolding publish_unless_replayed publish_mutation finish
published m w w' h = elim (Bool-cases m.replayed) [
  | inl e ↦ inl (e, ground (arith, h, e))
  | inr e ↦ inr (e, ground (arith, h, e))
]

-- The publication cannot fail.
always_published :
    (m : CaseMutationResult) (w w' : World) {B : Type 0} (b : B) {e : ApiError}
    → ¬ (continue (publish_unless_replayed m w) (λ _. finish b) ≡ (err e, w'))
unfolding publish_unless_replayed publish_mutation finish continue
always_published m w w' {B} b h = elim (Bool-cases m.replayed) [
  | inl e ↦ cc (ap (λ (r : Result ApiError B × World). r.0) (rw e at h))
  | inr e ↦ cc (ap (λ (r : Result ApiError B × World). r.0) (rw e at h))
]

module _ (codecs : Codecs) (state : AppState) (seconds : ℕ) (headers : HeaderMap) where
  -- What the three mutating handlers have in common.
  abbrev pub handling :
      {B : Type 0}
      → (VerifiedSubject → TenantContext → Str → Action CaseServiceError CaseMutationResult)
      → (CaseMutationResult → B)
      → Action ApiError B
  handling mutate respond = do
    (subject, context) ←
        authorized_tenant_with_scopes codecs state headers (cases_write_scope ∷ []) seconds
    key ← lift (idempotency_key codecs headers)
    mutation ← raise_as cases (mutate subject context key)
    publish_unless_replayed mutation
    finish (respond mutation)

  -- What stands behind a mutation that a handler answers with: an authenticated subject with the
  -- write scope, a membership of the tenant that the header names, a key, a successful run of the
  -- case service for them, an answer of that tenant, and the publication of its event.
  pub record IsServed
      (mutate : VerifiedSubject → TenantContext → Str → Action CaseServiceError CaseMutationResult)
      (before after : World) (m : CaseMutationResult) : Type 0 where
    pub subject : VerifiedSubject
    pub context : TenantContext
    pub key : Str
    pub authentic :
        IsAuthenticated codecs state.auth headers (cases_write_scope ∷ []) seconds subject
    pub tenant : tenant_id codecs headers ≡ ok context.tenant_id
    pub member : IsGranted subject before context
    pub keyed : idempotency_key codecs headers ≡ ok key
    pub ran : (u : World) × (u' : World) × (mutate subject context key u ≡ (ok m, u'))
    pub own_case : m.case.tenant_id ≡ context.tenant_id
    pub own_event : m.event.tenant_id ≡ context.tenant_id
    pub event_published : IsPublished m before.published after.published

  module _
      (mutate : VerifiedSubject → TenantContext → Str → Action CaseServiceError CaseMutationResult)
      (silent : (s : VerifiedSubject) (c : TenantContext) (k : Str) (w : World)
        → IsSilent w.published (mutate s c k w)) where
    pub served :
        {B : Type 0}
        → ((s : VerifiedSubject) (c : TenantContext) (k : Str) (w w' : World)
              (m : CaseMutationResult)
            → mutate s c k w ≡ (ok m, w')
            → (m.case.tenant_id ≡ c.tenant_id) × (m.event.tenant_id ≡ c.tenant_id))
        → (respond : CaseMutationResult → B) (w w' : World) (b : B)
        → handling mutate respond w ≡ (ok b, w')
        → (m : CaseMutationResult) × (b ≡ respond m) × IsServed mutate w w' m
    served own respond w w' b h =
        let (front, w1, p, h1) = continue-eq-ok _ _ h in
        let (subject, context) = front in
        let (key, keyed, h2) = lift-then-eq-ok _ _ w1 h1 in
        let (m, w2, q, h3) = continue-eq-ok _ _ h2 in
        let (done, w3, r, h4) = continue-eq-ok _ _ h3 in
        let (made, last) = finish-eq-ok _ w3 h4 in
        let ran = raise_as-eq-ok cases _ w1 q in
        let (own_case, own_event) = own subject context key w1 w2 m ran in
        let (authentic, tenant, member) =
          authorized_tenant_with_scopes_sound codecs state headers (cases_write_scope ∷ []) seconds
            w w1 subject context p in
        let e1 : w1.published ≡ w.published = rw p at (
          authorized_tenant_with_scopes-IsSilent codecs state headers (cases_write_scope ∷ [])
            seconds w) in
        let e2 : w2.published ≡ w1.published = rw ran at (silent subject context key w1) in
        let told = published m w2 w3 r in
        let told' : IsPublished m w.published w'.published = rw (e2 ∙ e1, last) at told in
        (
          m,
          sym made,
          record {
            subject = subject;
            context = context;
            key = key;
            authentic = authentic;
            tenant = tenant;
            member = member;
            keyed = keyed;
            ran = (w1, w2, ran);
            own_case = own_case;
            own_event = own_event;
            event_published = told';
          },
        )

    pub unserved :
        {B : Type 0} (respond : CaseMutationResult → B) (w w' : World) (e : ApiError)
        → handling mutate respond w ≡ (err e, w')
        → w'.published ≡ w.published
    unserved respond w w' e h =
        let front =
          authorized_tenant_with_scopes-IsSilent codecs state headers (cases_write_scope ∷ [])
            seconds w in
        elim (continue-eq-err _ _ h) [
          | inl p ↦ rw p at front
          | inr ((subject, context), w1, p, h1) ↦
              let e1 : w1.published ≡ w.published = rw p at front in
              elim (continue-eq-err _ _ h1) [
                | inl q ↦
                    rw q at (lift-IsSilent {E = ApiError} (idempotency_key codecs headers) w1) ∙ e1
                | inr (key, w2, q, h2) ↦
                    let e2 : w2.published ≡ w1.published =
                      rw q at (lift-IsSilent {E = ApiError} (idempotency_key codecs headers) w1) in
                    elim (continue-eq-err _ _ h2) [
                      | inl r ↦
                          rw r at (
                            raise_as-IsSilent w2.published cases (mutate subject context key) w2
                              (silent subject context key w2))
                          ∙ e2
                          ∙ e1
                      | inr (m, w3, r, h3) ↦ absurd (always_published m w3 w' (respond m) h3)
                    ]
              ]
        ]
