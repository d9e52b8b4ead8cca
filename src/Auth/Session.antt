-- ===== src/Auth/Session.antt =====
-- `validate_active_session`: the introspected session against the locally verified identity.
-- `Identity` and `Introspection` are the shared-auth crates' types, with the fields that are read.
pub mod Active
use apme_api.Prelude.{
  ℕ, Bool, true, false, not, ◌||◌, Option, none, some, is_none, List, Result, ok, err, and_then,
  ok_or, filter_some, any, leb, ltb, if◌then◌else◌,
}
use apme_api.Text.{Str, codes, str_eq, is_empty}
use apme_api.Domain.{VerifiedSubject}

pub data AuthFailure : Type 0 where
  unauthorized forbidden degraded : AuthFailure

pub record Identity : Type 0 where
  pub shared_user_id : Str
  pub session_id : Option Str

pub record Introspection : Type 0 where
  pub active : Bool
  pub sub : Option Str
  pub iss : Option Str
  pub aud : Option Str
  pub sid : Option Str
  pub exp : Option ℕ
  pub nbf : Option ℕ
  pub scope : Option Str

abbrev pub cases_read_scope : Str
cases_read_scope = codes "apme:cases:read"

abbrev pub cases_write_scope : Str
cases_write_scope = codes "apme:cases:write"

-- `field.as_deref() == Some(text)`
unfoldable pub is_exactly : Option Str → Str → Bool
is_exactly none text = false
is_exactly (some value) text = str_eq value text

-- `exp.is_none_or(|expires| expires <= now)`
unfoldable pub has_expired : Option ℕ → ℕ → Bool
has_expired none now = true
has_expired (some expires) now = leb expires now

-- `nbf.is_some_and(|not_before| not_before > now)`
unfoldable pub is_premature : Option ℕ → ℕ → Bool
is_premature none now = false
is_premature (some not_before) now = ltb now not_before

-- `Introspection::has_scope` is a parameter.
unfoldable pub is_refused :
    (Introspection → Str → Bool) → Identity → Str → Introspection → Str → Str → List Str → ℕ → Bool
is_refused has_scope identity session introspection issuer audience required_scopes now =
    not introspection.active
    || (not (is_exactly introspection.sub identity.shared_user_id)
        || (not (is_exactly introspection.iss issuer)
            || (not (is_exactly introspection.aud audience)
                || (not (is_exactly introspection.sid session)
                    || (has_expired introspection.exp now
                        || (is_premature introspection.nbf now
                            || any (λ required. not (has_scope introspection required))
                                required_scopes))))))

unfoldable pub validate_active_session :
    (Introspection → Str → Bool)
    → Identity
    → Introspection
    → Str
    → Str
    → List Str
    → ℕ
    → Result AuthFailure VerifiedSubject
validate_active_session has_scope identity introspection issuer audience required_scopes now =
    and_then (ok_or (filter_some (λ value. not (is_empty value)) identity.session_id) unauthorized)
      λ session.
        if is_refused has_scope identity session introspection issuer audience required_scopes now
        then err unauthorized
        else ok (record { shared_user_id = identity.shared_user_id; session_id = session })
