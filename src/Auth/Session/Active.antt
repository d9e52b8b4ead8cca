-- ===== src/Auth/Session/Active.antt =====
-- Exactly which sessions are accepted.
use apme_api.Prelude.{
  ℕ, ◌≤◌, ◌<◌, ◌≡◌, refl, ◌≢◌, ◌↔◌, Bool, true, false, not, Option, none, some, List, [], ◌∷◌, ok,
  arith, any, All, Option-cases, inl, inr,
}
use apme_api.Text.{Str}
use apme_api.Text.Laws.{str_eq_iff}
use apme_api.Domain.{VerifiedSubject}
use apme_api.Auth.Session.{
  Identity, Introspection, is_exactly, has_expired, is_premature, is_refused,
  validate_active_session,
}

is_exactly_iff : (o : Option Str) (text : Str) → (is_exactly o text ≡ true) ↔ (o ≡ some text)
unfolding is_exactly
is_exactly_iff none text = ground arith
is_exactly_iff (some value) text = ground (arith, str_eq_iff value text)

has_expired_iff :
    (exp : Option ℕ) (now : ℕ)
    → (has_expired exp now ≡ false) ↔ ((e : ℕ) × (exp ≡ some e) × (now < e))
unfolding has_expired
has_expired_iff none now = (λ h. cc, λ (e, p, q). cc)
has_expired_iff (some e) now = (λ h. (e, refl, ground arith), λ (f, p, q). ground arith)

is_premature_iff :
    (nbf : Option ℕ) (now : ℕ) → (is_premature nbf now ≡ false) ↔ ((n : ℕ) → nbf ≡ some n → n ≤ now)
unfolding is_premature
is_premature_iff none now = (λ h n p. cc, λ f. refl)
is_premature_iff (some n) now = (λ h m p. ground arith, λ f. ground (arith, f n refl))

module _ (has_scope : Introspection → Str → Bool) where
  has_scopes_iff :
      (intro : Introspection) (scopes : List Str)
      → (any (λ required. not (has_scope intro required)) scopes ≡ false)
        ↔ All (λ required. has_scope intro required ≡ true) scopes
  unfolding any
  has_scopes_iff intro [] = ground arith
  has_scopes_iff intro (r ∷ scopes) = ground (arith, has_scopes_iff intro scopes)

  -- The introspected session is live at `now`, is that of the identity, was issued by this issuer
  -- for this audience, and carries every required scope.
  pub record IsLiveSession (identity : Identity) (session : Str) (intro : Introspection)
      (issuer audience : Str) (scopes : List Str) (now : ℕ) : Type 0 where
    pub active : intro.active ≡ true
    pub sub : intro.sub ≡ some identity.shared_user_id
    pub iss : intro.iss ≡ some issuer
    pub aud : intro.aud ≡ some audience
    pub sid : intro.sid ≡ some session
    pub unexpired : (e : ℕ) × (intro.exp ≡ some e) × (now < e)
    pub started : (n : ℕ) → intro.nbf ≡ some n → n ≤ now
    pub scoped : All (λ required. has_scope intro required ≡ true) scopes

  is_refused_iff :
      (identity : Identity) (session : Str) (intro : Introspection) (issuer audience : Str)
      (scopes : List Str) (now : ℕ)
      → (is_refused has_scope identity session intro issuer audience scopes now ≡ false)
        ↔ IsLiveSession identity session intro issuer audience scopes now
  unfolding is_refused
  is_refused_iff identity session intro issuer audience scopes now = (
    λ h. record {
      active = ground arith;
      sub = (is_exactly_iff _ _).0 (ground arith);
      iss = (is_exactly_iff _ _).0 (ground arith);
      aud = (is_exactly_iff _ _).0 (ground arith);
      sid = (is_exactly_iff _ _).0 (ground arith);
      unexpired = (has_expired_iff _ _).0 (ground arith);
      started = (is_premature_iff _ _).0 (ground arith);
      scoped = (has_scopes_iff intro scopes).0 (ground arith);
    },
    λ l. ground (
      arith,
      (is_exactly_iff _ _).1 l.sub,
      (is_exactly_iff _ _).1 l.iss,
      (is_exactly_iff _ _).1 l.aud,
      (is_exactly_iff _ _).1 l.sid,
      (has_expired_iff _ _).1 l.unexpired,
      (is_premature_iff _ _).1 l.started,
      (has_scopes_iff intro scopes).1 l.scoped,
      l.active,
    ),
  )

  validated :
      (identity : Identity) (intro : Introspection) (issuer audience : Str) (scopes : List Str)
      (now : ℕ) (subject : VerifiedSubject)
      → (validate_active_session has_scope identity intro issuer audience scopes now ≡ ok subject)
        ↔ ((identity.session_id ≡ some subject.session_id)
            × (subject.session_id ≢ [])
            × (subject.shared_user_id ≡ identity.shared_user_id)
            × (is_refused has_scope identity subject.session_id intro issuer audience scopes now
                ≡ false))
  unfolding validate_active_session
  validated identity intro issuer audience scopes now subject =
      elim (Option-cases identity.session_id) [
        | inl e ↦ ground arith
        | inr ([], e) ↦ ground arith
        | inr (c ∷ s, e) ↦ ground arith
      ]

  -- A session is accepted exactly when the identity carries a session id that is not empty and the
  -- introspected session is live for it; the subject is then that user and that session.
  pub validate_active_session_iff :
      (identity : Identity) (intro : Introspection) (issuer audience : Str) (scopes : List Str)
      (now : ℕ) (subject : VerifiedSubject)
      → (validate_active_session has_scope identity intro issuer audience scopes now ≡ ok subject)
        ↔ ((identity.session_id ≡ some subject.session_id)
            × (subject.session_id ≢ [])
            × (subject.shared_user_id ≡ identity.shared_user_id)
            × IsLiveSession identity subject.session_id intro issuer audience scopes now)
  validate_active_session_iff identity intro issuer audience scopes now subject =
      let v = validated identity intro issuer audience scopes now subject in
      let live = is_refused_iff identity subject.session_id intro issuer audience scopes now in
      (
        λ h. let (s, n, u, r) = v.0 h in (s, n, u, live.0 r),
        λ (s, n, u, l). v.1 (s, n, u, live.1 l),
      )
