-- ===== src/Transport/Tcp/Authority.antt =====
-- Whose cases a frame is answered with.
use apme_api.Prelude.{
  ℕ, ◌++◌, ◌≡◌, refl, ap, ◌∙◌, ◌⊎◌, inl, inr, leb, length, Option, none, some, List, [], ◌∷◌, ok,
  arith, All, All-of-mem, Result-cases, Option-cases, Bool-cases, filter_some, ◌≤◌,
}
use apme_api.Text.{Str, codes}
use apme_api.Domain.{Uuid, Bytes, VerifiedSubject, TenantContext, PersistedCase}
use apme_api.Database.{World}
use apme_api.Database.Frames.{continue-eq-ok, raise_as-eq-ok}
use apme_api.Http.{Codecs}
use apme_api.Auth.Session.{cases_read_scope}
use apme_api.Auth.Service.Outcomes.{IsAuthenticated}
use apme_api.Cases.Lookup.Isolation.{list_cases_lem}
use apme_api.Api.Errors.{code}
use apme_api.Api.Access.{AppState}
use apme_api.Api.Access.Membership.{IsToken, IsGranted, presented, authorize_token_sound}
use apme_api.Transport.Tcp.{
  FrameRequest, Wire, encode_failure, success, perform, encode, execute, max_response_bytes,
  or_else_bytes,
}

-- What is sent where an encoding that fits is preferred.
settled :
    (encoded : Option Bytes) (other : Bytes)
    → let sent =
        or_else_bytes (filter_some (λ v. leb (length v) max_response_bytes) encoded) other in
      ((encoded ≡ some sent) × (length sent ≤ max_response_bytes)) ⊎ (sent ≡ other)
settled none other = inr refl
settled (some b) other = elim (Bool-cases (leb (length b) max_response_bytes)) [
  | inl q ↦ inl (ground arith, ground arith)
  | inr q ↦ inr (ground arith)
]

module _ (wire : Wire) (codecs : Codecs) (state : AppState) (now : ℕ) (bytes : Bytes)
    (w : World) where
  -- A frame is answered with cases: it is a request whose token is well formed and authenticates with
  -- the read scope, for a tenant of which the subject is an active member, and every case is of that
  -- tenant without a tombstone; the response is their encoding and fits.
  pub record IsListing (response : Bytes) : Type 0 where
    pub request : FrameRequest
    pub cases : List PersistedCase
    pub subject : VerifiedSubject
    pub context : TenantContext
    pub value : Bytes
    pub parsed : wire.from_slice bytes ≡ some request
    pub token : IsToken request.bearer_token
    pub header : codecs.from_str (codes "Bearer " ++ request.bearer_token) ≡ some value
    pub authentic :
        IsAuthenticated codecs state.auth (presented value) (cases_read_scope ∷ []) now subject
    pub tenant : context.tenant_id ≡ request.tenant_id
    pub member : IsGranted subject w context
    pub own : All (λ c. (c.tenant_id ≡ request.tenant_id) × (c.tombstoned_at ≡ none)) cases
    pub encoded : wire.to_vec (success request.request_id cases) ≡ some response
    pub fits : length response ≤ max_response_bytes

  performed :
      (request : FrameRequest) (response : Bytes) (cases : List PersistedCase) (w' : World)
      → wire.from_slice bytes ≡ some request
      → perform codecs state now request w ≡ (ok cases, w')
      → wire.to_vec (success request.request_id cases) ≡ some response
      → length response ≤ max_response_bytes
      → IsListing response
  unfolding perform
  performed request response cases w' parsed h encoded fits =
      let (front, u, p, h1) = continue-eq-ok _ _ h in
      let (subject, context) = front in
      let (token, presentation, tenant, member) =
        authorize_token_sound codecs state request.bearer_token request.tenant_id
          (cases_read_scope ∷ []) now w u subject context (raise_as-eq-ok code _ w p) in
      let (value, header, authentic) = presentation in
      let (ordered, complete, members) =
        list_cases_lem context u w' cases
          (raise_as-eq-ok (λ _. codes "temporarily_unavailable") _ u h1) in
      record {
        request = request;
        cases = cases;
        subject = subject;
        context = context;
        value = value;
        parsed = parsed;
        token = token;
        header = header;
        authentic = authentic;
        tenant = tenant;
        member = member;
        own =
            All-of-mem _ cases
              λ c m. let (stored, own, live) = (members c).0 m in (own ∙ tenant, live);
        encoded = encoded;
        fits = fits;
      }

  IsFailure : Bytes → Type 0
  IsFailure response = (id : Uuid) × (error : Str) × (response ≡ encode_failure wire id error)

  encoded_cases :
      (id : Uuid) (cases : List PersistedCase)
      → ((wire.to_vec (success id cases) ≡ some (encode wire id (ok cases)))
          × (length (encode wire id (ok cases)) ≤ max_response_bytes))
        ⊎ IsFailure (encode wire id (ok cases))
  unfolding encode IsFailure
  encoded_cases id cases =
      elim (settled (wire.to_vec (success id cases))
        (encode_failure wire id (codes "response_too_large"))) [
          | inl h ↦ inl h
          | inr e ↦ inr (id, codes "response_too_large", e)
        ]

  -- A frame is answered with a failure that carries no cases, or as `IsListing` says.
  pub execute-IsListing :
      ((id : Uuid) × (error : Str) × ((execute wire codecs state now bytes w).0
          ≡ encode_failure wire id error))
      ⊎ IsListing (execute wire codecs state now bytes w).0
  unfolding execute IsFailure encode
  execute-IsListing = elim (Option-cases (wire.from_slice bytes)) [
    | inl e ↦ inl (0, codes "invalid_request", rw e refl)
    | inr (request, e) ↦ rw e (elim (Result-cases (perform codecs state now request w).0) [
      | inl (error, p) ↦ inl (request.request_id, error, rw p refl)
      | inr (cases, p) ↦ elim (encoded_cases request.request_id cases) [
        | inl (encoded, fits) ↦ inr (
            rw p (
              performed request _ cases (perform codecs state now request w).1 e
                (ap (λ r. (r, (perform codecs state now request w).1)) p) encoded fits))
        | inr (id, error, f) ↦ inl (id, error, rw p f)
      ]
    ])
  ]
