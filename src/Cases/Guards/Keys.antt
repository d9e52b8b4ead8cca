-- ===== src/Cases/Guards/Keys.antt =====
-- Which idempotency keys pass.
use apme_api.Prelude.{
  ℕ, ◌≤◌, ◌≡◌, refl, ◌≢◌, ◌↔◌, ◌⊎◌, true, false, [], ◌∷◌, ok, arith, any, All, Bool-cases, inl, inr,
}
use apme_api.Text.{Str, len, is_control}
use apme_api.Cases.Guards.{validate_idempotency_key}

-- The general category Cc.
abbrev pub IsControl : ℕ → Type 0
IsControl c = (c ≤ 31) ⊎ ((127 ≤ c) × (c ≤ 159))

pub record IsKey (key : Str) : Type 0 where
  pub present : key ≢ []
  pub bounded : len key ≤ 200
  pub visible : All (λ c. ¬ IsControl c) key

not-IsControl_iff : (c : ℕ) → (is_control c ≡ false) ↔ (¬ IsControl c)
unfolding is_control
not-IsControl_iff c = (
  λ h k. ground arith,
  λ h. elim (Bool-cases (is_control c)) [ inl e ↦ absurd (h (controlled c e)) | inr e ↦ e ],
)
  where
    controlled : (c : ℕ) → is_control c ≡ true → IsControl c
    controlled c e = ground arith

no-IsControl_iff : (s : Str) → (any is_control s ≡ false) ↔ All (λ c. ¬ IsControl c) s
unfolding any
no-IsControl_iff [] = (λ h. tt, λ h. refl)
no-IsControl_iff (c ∷ s) = (
  λ h. ((not-IsControl_iff c).0 (ground arith), (no-IsControl_iff s).0 (ground arith)),
  λ (p, h). rw ((not-IsControl_iff c).1 p) ((no-IsControl_iff s).1 h),
)

-- A key passes exactly when it is not empty, takes at most 200 bytes, and has no control character.
pub validate_idempotency_key_iff : (key : Str) → (validate_idempotency_key key ≡ ok tt) ↔ IsKey key
unfolding validate_idempotency_key
validate_idempotency_key_iff [] = (λ h. cc, λ k. absurd (k.present refl))
validate_idempotency_key_iff (c ∷ s) = (
  λ h. record {
    present = λ e. cc;
    bounded = ground arith;
    visible = (no-IsControl_iff (c ∷ s)).0 (ground arith);
  },
  λ k. ground (arith, (no-IsControl_iff (c ∷ s)).1 k.visible, k.bounded),
)
