-- ===== src/Auth/Service/Outcomes.antt =====
-- When authentication succeeds, and which failure each obstacle gives.
use apme_api.Prelude.{
  ℕ, ◌≡◌, refl, ap, ◌∙◌, ◌≢◌, ◌↔◌, ◌⊎◌, Bool, true, false, none, some, List, [], ◌∷◌, ◌++◌, Result,
  ok, err, arith, Option-cases, Result-cases, inl, inr, ok_or, and_then,
}
use apme_api.Text.{Str, codes, strip_prefix, trim}
use apme_api.Text.Laws.{strip_prefix_iff}
use apme_api.Domain.{VerifiedSubject, Bytes}
use apme_api.Http.{HeaderMap, Codecs, authorization}
use apme_api.Auth.Session.{
  AuthFailure, unauthorized, forbidden, degraded, Identity, Introspection, validate_active_session,
}
use apme_api.Auth.Session.Active.{IsLiveSession, validate_active_session_iff}
use apme_api.Auth.Service.{
  AuthService, Authority, AuthOutcome, authenticated, degraded_outcome, shared_auth,
  other_authority, bearer, accept_outcome, authenticate_with_scopes,
}

-- The bearer is what follows `Bearer ` in a readable header, trimmed, if that is not empty.
bearer_iff :
    (codecs : Codecs) (headers : HeaderMap) (token : Str)
    → (bearer codecs headers ≡ some token) ↔ (
        (value : Bytes) × (rest : Str) × (headers authorization ≡ some value)
        × (codecs.to_str value ≡ some (codes "Bearer " ++ rest))
        × (token ≡ trim rest)
        × (token ≢ []))
unfolding bearer
bearer_iff codecs headers token = (to, from)
  where
    to :
        bearer codecs headers ≡ some token
        → (value : Bytes) × (rest : Str) × (headers authorization ≡ some value)
          × (codecs.to_str value ≡ some (codes "Bearer " ++ rest))
          × (token ≡ trim rest)
          × (token ≢ [])
    to h = elim (Option-cases (headers authorization)) [
      | inl e ↦ ground arith
      | inr (value, e) ↦ elim (Option-cases (codecs.to_str value)) [
        | inl e' ↦ ground arith
        | inr (s, e') ↦ elim (Option-cases (strip_prefix s (codes "Bearer "))) [
          | inl q ↦ ground arith
          | inr (rest, q) ↦ (
            value,
            rest,
            e,
            e' ∙ ap some ((strip_prefix_iff s (codes "Bearer ") rest).0 q),
            ground arith,
            ground arith,
          )
        ]
      ]
    ]

    from :
        ((value : Bytes) × (rest : Str) × (headers authorization ≡ some value)
          × (codecs.to_str value ≡ some (codes "Bearer " ++ rest))
          × (token ≡ trim rest)
          × (token ≢ []))
        → bearer codecs headers ≡ some token
    from (value, rest, e, e', q, n) =
        ground (arith, (strip_prefix_iff (codes "Bearer " ++ rest) (codes "Bearer ") rest).1 refl)

accept_outcome_iff :
    (test : Identity → Bool) (outcome : AuthOutcome) (identity : Identity)
    → (accept_outcome test outcome ≡ ok identity)
      ↔ ((outcome ≡ authenticated identity shared_auth) × (test identity ≡ false))
unfolding accept_outcome
accept_outcome_iff test (authenticated i shared_auth) identity = ground arith
accept_outcome_iff test _ identity = ground arith

module _ (codecs : Codecs) (self : AuthService) (headers : HeaderMap) (scopes : List Str)
    (now : ℕ) where
  -- What a successful authentication has established about the request.
  pub record IsAuthenticated (subject : VerifiedSubject) : Type 0 where
    pub token : Str
    pub identity : Identity
    pub introspection : Introspection
    pub presented : bearer codecs headers ≡ some token
    pub verified : self.remote.check headers ≡ authenticated identity shared_auth
    pub genuine : self.remote.is_sandboxed identity ≡ false
    pub introspected : self.remote.introspect token self.audience scopes ≡ some introspection
    pub session : identity.session_id ≡ some subject.session_id
    pub session_named : subject.session_id ≢ []
    pub user : subject.shared_user_id ≡ identity.shared_user_id
    pub live :
        IsLiveSession self.remote.has_scope identity subject.session_id introspection self.issuer
          self.audience scopes now

  IsAuthenticated-to :
      (subject : VerifiedSubject)
      → authenticate_with_scopes codecs self headers scopes now ≡ ok subject
      → IsAuthenticated subject
  unfolding authenticate_with_scopes
  IsAuthenticated-to subject h = elim (Option-cases (bearer codecs headers)) [
    | inl e ↦ ground arith
    | inr (token, e) ↦
        elim (Result-cases (accept_outcome self.remote.is_sandboxed (self.remote.check headers))) [
          | inl (f, r) ↦ ground arith
          | inr (identity, r) ↦
              elim (Option-cases (self.remote.introspect token self.audience scopes)) [
                | inl none_found ↦ ground arith
                | inr (introspection, found) ↦
                    let (verified, genuine) = (accept_outcome_iff _ _ identity).0 r in
                    let (session, named, user, live) =
                      (validate_active_session_iff self.remote.has_scope identity introspection
                          self.issuer self.audience scopes now subject).0
                        (ground arith) in
                    record {
                      token = token;
                      identity = identity;
                      introspection = introspection;
                      presented = e;
                      verified = verified;
                      genuine = genuine;
                      introspected = found;
                      session = session;
                      session_named = named;
                      user = user;
                      live = live;
                    }
              ]
        ]
  ]

  IsAuthenticated-from :
      (subject : VerifiedSubject)
      → IsAuthenticated subject
      → authenticate_with_scopes codecs self headers scopes now ≡ ok subject
  unfolding authenticate_with_scopes
  IsAuthenticated-from subject a =
      let accepted_identity =
        (accept_outcome_iff self.remote.is_sandboxed _ a.identity).1 (a.verified, a.genuine) in
      let valid =
        (validate_active_session_iff self.remote.has_scope a.identity a.introspection self.issuer
            self.audience scopes now subject).1
          (a.session, a.session_named, a.user, a.live) in
      rw (a.presented, accepted_identity, a.introspected, valid)

  -- Authentication yields a subject exactly when a bearer is presented, the guard vouches for an
  -- identity of Shared Auth that is not sandboxed, and the introspection of that bearer is a live
  -- session of that identity with every required scope.
  pub authenticate_with_scopes_iff :
      (subject : VerifiedSubject)
      → (authenticate_with_scopes codecs self headers scopes now ≡ ok subject)
        ↔ IsAuthenticated subject
  authenticate_with_scopes_iff subject = (IsAuthenticated-to subject, IsAuthenticated-from subject)

  validation_refusal :
      (identity : Identity) (introspection : Introspection) (f : AuthFailure)
      → validate_active_session self.remote.has_scope identity introspection self.issuer
          self.audience scopes now
        ≡ err f
      → f ≡ unauthorized
  unfolding validate_active_session
  validation_refusal identity introspection f h = elim (Option-cases identity.session_id) [
    | inl e ↦ ground arith
    | inr ([], e) ↦ ground arith
    | inr (c ∷ s, e) ↦ ground arith
  ]

  after_bearer : Str → AuthOutcome → Result AuthFailure VerifiedSubject
  after_bearer token outcome =
      and_then (accept_outcome self.remote.is_sandboxed outcome) λ identity.
        and_then (ok_or (self.remote.introspect token self.audience scopes) degraded)
          λ introspection.
            validate_active_session self.remote.has_scope identity introspection self.issuer
              self.audience scopes now

  after_bearer_forbidden :
      (token : Str) (outcome : AuthOutcome)
      → after_bearer token outcome ≡ err forbidden
      → (identity : Identity) × (authority : Authority) × (outcome
          ≡ authenticated identity authority)
        × ((authority ≡ other_authority) ⊎ (self.remote.is_sandboxed identity ≡ true))
  unfolding after_bearer accept_outcome
  after_bearer_forbidden token (authenticated identity shared_auth) h =
      elim (Option-cases (self.remote.introspect token self.audience scopes)) [
        | inl e ↦ (identity, shared_auth, refl, ground arith)
        | inr (i, e) ↦
            (identity, shared_auth, refl, ground (arith, validation_refusal identity i forbidden))
      ]
  after_bearer_forbidden token (authenticated identity other_authority) h =
      (identity, other_authority, refl, inl refl)
  after_bearer_forbidden token _ h = cc

  after_bearer_degraded :
      (token : Str) (outcome : AuthOutcome)
      → after_bearer token outcome ≡ err degraded
      → (outcome ≡ degraded_outcome)
        ⊎ ((identity : Identity) × (outcome ≡ authenticated identity shared_auth)
            × (self.remote.is_sandboxed identity ≡ false)
            × (self.remote.introspect token self.audience scopes ≡ none))
  unfolding after_bearer accept_outcome
  after_bearer_degraded token (authenticated identity shared_auth) h =
      elim (Option-cases (self.remote.introspect token self.audience scopes)) [
        | inl e ↦ inr (identity, refl, ground arith, e)
        | inr (i, e) ↦ absurd (ground (arith, validation_refusal identity i degraded))
      ]
  after_bearer_degraded token degraded_outcome h = inl refl
  after_bearer_degraded token _ h = cc

  -- `Forbidden` is the answer exactly when a bearer is presented with an identity that the guard
  -- vouches for, and that identity is sandboxed or another authority's.
  pub authenticate_forbidden_iff :
      (authenticate_with_scopes codecs self headers scopes now ≡ err forbidden) ↔ (
        (token : Str) × (identity : Identity) × (authority : Authority) × (bearer codecs headers
          ≡ some token)
        × (self.remote.check headers ≡ authenticated identity authority)
        × ((authority ≡ other_authority) ⊎ (self.remote.is_sandboxed identity ≡ true)))
  unfolding authenticate_with_scopes accept_outcome after_bearer
  authenticate_forbidden_iff = (
    λ h. elim (Option-cases (bearer codecs headers)) [
      | inl e ↦ cc (rw e at h)
      | inr (token, e) ↦
          let (identity, authority, c, why) =
            after_bearer_forbidden token (self.remote.check headers) (rw e at h) in
          (token, identity, authority, e, c, why)
    ],
    λ (token, identity, authority, e, c, why). ground arith,
  )

  -- `Degraded` is the answer exactly when a bearer is presented and either the guard is degraded or
  -- it vouches for a Shared Auth identity that is not sandboxed and the introspection call fails.
  pub authenticate_degraded_iff :
      (authenticate_with_scopes codecs self headers scopes now ≡ err degraded) ↔ (
        (token : Str) × (bearer codecs headers ≡ some token)
        × ((self.remote.check headers ≡ degraded_outcome)
            ⊎ ((identity : Identity) × (self.remote.check headers
                  ≡ authenticated identity shared_auth)
                × (self.remote.is_sandboxed identity ≡ false)
                × (self.remote.introspect token self.audience scopes ≡ none))))
  unfolding authenticate_with_scopes accept_outcome after_bearer
  authenticate_degraded_iff = (
    λ h. elim (Option-cases (bearer codecs headers)) [
      | inl e ↦ cc (rw e at h)
      | inr (token, e) ↦
          (token, e, after_bearer_degraded token (self.remote.check headers) (rw e at h))
    ],
    λ (token, e, why). elim why [ inl c ↦ ground arith | inr (identity, c, g, f) ↦ ground arith ],
  )
