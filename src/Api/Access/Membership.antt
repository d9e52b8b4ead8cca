-- ===== src/Api/Access/Membership.antt =====
-- Who gets past the front of the handlers.
use apme_api.Prelude.{
  ℕ, ◌≤◌, ◌≡◌, refl, sym, ap, ◌∙◌, ◌≢◌, ◌↔◌, false, some, List, [], ◌∷◌, ◌++◌, ok, arith, All,
  any-eq-false_iff, Bool-cases, Option-cases, inl, inr, map_err-eq-ok,
}
use apme_api.Text.{Str, codes, len, is_whitespace, is_control}
use apme_api.Domain.{Uuid, VerifiedSubject, TenantContext, Bytes}
use apme_api.Database.{World, current}
use apme_api.Database.Frames.{continue-eq-ok, finish-eq-ok, raise_as-eq-ok, lift-then-eq-ok}
use apme_api.Database.Silence.{
  IsSilent, continue-IsSilent, lift-IsSilent, raise_as-IsSilent, finish-IsSilent,
}
use apme_api.Http.{HeaderMap, Codecs, no_headers, insert_header, authorization}
use apme_api.Auth.Service.Outcomes.{IsAuthenticated, authenticate_with_scopes_iff}
use apme_api.Cases.Names.{parse_role}
use apme_api.Cases.Queries.{ContextRow}
use apme_api.Cases.Queries.Join.{IsMember}
use apme_api.Cases.Lookup.{tenant_context}
use apme_api.Cases.Lookup.Isolation.{tenant_context_sound}
use apme_api.Cases.Lookup.Silence.{tenant_context-IsSilent}
use apme_api.Api.Errors.{ApiError, authentication}
use apme_api.Api.Access.{
  AppState, tenant_id, authorized_tenant_with_scopes, max_token_bytes, is_malformed_token,
  token_headers, authorize_token,
}

-- The tables at the moment of the check hold an active membership behind the context.
pub record IsGranted (subject : VerifiedSubject) (w : World) (context : TenantContext)
    : Type 0 where
  pub row : ContextRow
  pub member :
      IsMember context.tenant_id subject.shared_user_id
        (current w).memberships
        (current w).tenants
        row
  pub organization : context.organization_id ≡ row.organization_id
  pub role : parse_role row.role ≡ ok context.role

pub granted :
    (subject : VerifiedSubject) (tenant : Uuid) (w w' : World) (context : TenantContext)
    → tenant_context subject tenant w ≡ (ok context, w')
    → (context.tenant_id ≡ tenant) × IsGranted subject w context
granted subject tenant w w' context h =
    let (row, member, same, organization, role) =
      tenant_context_sound subject tenant w w' context h in
    let here : IsMember context.tenant_id subject.shared_user_id (current w).memberships
        (current w).tenants row =
      rw same member in
    (same, record { row = row; member = here; organization = organization; role = role })

module _ (codecs : Codecs) (state : AppState) (headers : HeaderMap) (scopes : List Str)
    (now : ℕ) where
  -- A request gets past only as an authenticated subject with the scopes required, and with a
  -- context for the tenant that its header names, of which the subject is an active member.
  pub authorized_tenant_with_scopes_sound :
      (w w' : World) (subject : VerifiedSubject) (context : TenantContext)
      → authorized_tenant_with_scopes codecs state headers scopes now w
        ≡ (ok (subject, context), w')
      → IsAuthenticated codecs state.auth headers scopes now subject
        × (tenant_id codecs headers ≡ ok context.tenant_id)
        × IsGranted subject w context
  unfolding authorized_tenant_with_scopes
  authorized_tenant_with_scopes_sound w w' subject context h =
      let (s, checked, h1) = lift-then-eq-ok _ _ w h in
      let (tenant, named, h2) = lift-then-eq-ok _ _ w h1 in
      let (c, u, found, h3) = continue-eq-ok _ _ h2 in
      let made = (finish-eq-ok _ u h3).0 in
      let (same, grant) = granted s tenant w u c (raise_as-eq-ok _ _ w found) in
      let is_subject : s ≡ subject = ap (λ (r : VerifiedSubject × TenantContext). r.0) made in
      let is_context : c ≡ context = ap (λ (r : VerifiedSubject × TenantContext). r.1) made in
      rw (← is_subject, ← is_context)
        (
          (authenticate_with_scopes_iff codecs state.auth headers scopes now s).0
              (map_err-eq-ok authentication _ checked),
          named ∙ ap ok (sym same),
          grant,
        )

  pub authorized_tenant_with_scopes-IsSilent :
      (w : World)
      → IsSilent w.published (authorized_tenant_with_scopes codecs state headers scopes now w)
  unfolding authorized_tenant_with_scopes
  authorized_tenant_with_scopes-IsSilent w =
      continue-IsSilent _ _ _ (lift-IsSilent _ w) λ subject u e.
        continue-IsSilent _ _ _ (lift-IsSilent _ u ∙ e) λ tenant u1 e1.
          continue-IsSilent _ _ _
            (raise_as-IsSilent _ _ _ u1 (tenant_context-IsSilent subject tenant u1 ∙ e1))
            λ context u2 e2. finish-IsSilent ApiError _ u2 ∙ e2

-- A bare token of the TCP transport: present, at most 16 KiB, with no white space and no control
-- character.
pub record IsToken (token : Str) : Type 0 where
  pub present : token ≢ []
  pub bounded : len token ≤ max_token_bytes
  pub unbroken : All (λ c. is_whitespace c ≡ false) token
  pub printable : All (λ c. is_control c ≡ false) token

is_malformed_token_iff : (token : Str) → (is_malformed_token token ≡ false) ↔ IsToken token
unfolding is_malformed_token
is_malformed_token_iff [] = (λ h. cc, λ t. absurd (t.present refl))
is_malformed_token_iff (c ∷ s) = (
  λ h. record {
    present = λ e. cc;
    bounded = ground arith;
    unbroken = (any-eq-false_iff is_whitespace (c ∷ s)).0 (ground arith);
    printable = (any-eq-false_iff is_control (c ∷ s)).0 (ground arith);
  },
  λ t. ground (
    arith,
    t.bounded,
    (any-eq-false_iff is_whitespace (c ∷ s)).1 t.unbroken,
    (any-eq-false_iff is_control (c ∷ s)).1 t.printable,
  ),
)

-- The headers under which a token is presented to the authority.
abbrev pub presented : Bytes → HeaderMap
presented value = insert_header authorization value no_headers

token_headers_lem :
    (codecs : Codecs) (token : Str) (headers : HeaderMap)
    → token_headers codecs token ≡ ok headers
    → IsToken token
      × ((value : Bytes) × (codecs.from_str (codes "Bearer " ++ token) ≡ some value)
          × (headers ≡ presented value))
unfolding token_headers
token_headers_lem codecs token headers h = elim (Bool-cases (is_malformed_token token)) [
  | inl e ↦ cc (rw e at h)
  | inr e ↦ elim (Option-cases (codecs.from_str (codes "Bearer " ++ token))) [
    | inl q ↦ cc (rw (e, q) at h)
    | inr (value, q) ↦ ((is_malformed_token_iff token).0 e, (value, q, cc (rw (e, q) at h)))
  ]
]

module _ (codecs : Codecs) (state : AppState) (token : Str) (tenant : Uuid) (scopes : List Str)
    (now : ℕ) where
  -- A bare token gets past only if it is well formed and authenticates, as the only header, with the
  -- scopes required; the context is for the tenant that the frame names, by an active membership.
  pub authorize_token_sound :
      (w w' : World) (subject : VerifiedSubject) (context : TenantContext)
      → authorize_token codecs state token tenant scopes now w ≡ (ok (subject, context), w')
      → IsToken token
        × ((value : Bytes) × (codecs.from_str (codes "Bearer " ++ token) ≡ some value)
            × IsAuthenticated codecs state.auth (presented value) scopes now subject)
        × (context.tenant_id ≡ tenant)
        × IsGranted subject w context
  unfolding authorize_token
  authorize_token_sound w w' subject context h =
      let (headers, made_headers, h1) = lift-then-eq-ok _ _ w h in
      let (s, checked, h2) = lift-then-eq-ok _ _ w h1 in
      let (c, u, found, h3) = continue-eq-ok _ _ h2 in
      let made = (finish-eq-ok _ u h3).0 in
      let (same, grant) = granted s tenant w u c (raise_as-eq-ok _ _ w found) in
      let is_subject : s ≡ subject = ap (λ (r : VerifiedSubject × TenantContext). r.0) made in
      let is_context : c ≡ context = ap (λ (r : VerifiedSubject × TenantContext). r.1) made in
      let (well_formed, rest) = token_headers_lem codecs token headers made_headers in
      let (value, rendered, only) = rest in
      let authentic : IsAuthenticated codecs state.auth headers scopes now s =
        (authenticate_with_scopes_iff codecs state.auth headers scopes now s).0
          (map_err-eq-ok authentication _ checked) in
      rw (← is_subject, ← is_context)
        (well_formed, (value, rendered, rw only at authentic), same, grant)
