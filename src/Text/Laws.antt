-- ===== src/Text/Laws.antt =====
-- Laws of the operations on texts.
use mathlib.Core.List.{append-nil}
use apme_api.Prelude.{
  ℕ, ◌≡◌, refl, sym, ap, ◌↔◌, ◌≢◌, true, false, [], ◌∷◌, ◌++◌, some, arith, All, Option-cases, inl,
  inr,
}
use apme_api.Text.{Str, str_eq, strip_prefix, contains, contains_char}

pub str_eq_iff : (s t : Str) → (str_eq s t ≡ true) ↔ (s ≡ t)
unfolding str_eq
str_eq_iff [] [] = ground arith
str_eq_iff [] (y ∷ ys) = ground arith
str_eq_iff (x ∷ xs) [] = ground arith
str_eq_iff (x ∷ xs) (y ∷ ys) = ground (arith, str_eq_iff xs ys)

pub str_eq_refl : (s : Str) → str_eq s s ≡ true
str_eq_refl s = (str_eq_iff s s).1 refl

-- The prefix comes off exactly where the text is that prefix and the result.
pub strip_prefix_iff : (s p r : Str) → (strip_prefix s p ≡ some r) ↔ (s ≡ p ++ r)
unfolding strip_prefix
strip_prefix_iff s [] r = ground arith
strip_prefix_iff [] (d ∷ p) r = ground arith
strip_prefix_iff (c ∷ s) (d ∷ p) r = ground (arith, strip_prefix_iff s p r)

pub strip_prefix-append : (p r : Str) → strip_prefix (p ++ r) p ≡ some r
strip_prefix-append p r = (strip_prefix_iff (p ++ r) p r).1 refl

contains_of_prefix : (p b : Str) → contains (p ++ b) p ≡ true
unfolding contains
contains_of_prefix [] [] = refl
contains_of_prefix [] (c ∷ b) = refl
contains_of_prefix (c ∷ p) b = rw (strip_prefix-append (c ∷ p) b)

contains_of_infix : (a p b : Str) → contains (a ++ (p ++ b)) p ≡ true
unfolding contains
contains_of_infix [] p b = contains_of_prefix p b
contains_of_infix (c ∷ a) p b = ground (arith, contains_of_infix a p b)

infix_of_contains : (s p : Str) → contains s p ≡ true → (a : Str) × (b : Str) × (s ≡ a ++ (p ++ b))
unfolding contains
infix_of_contains [] p h = elim (Option-cases (strip_prefix [] p)) [
  | inl e ↦ cc (e)
  | inr (r, e) ↦ ([], r, (strip_prefix_iff [] p r).0 e)
]
infix_of_contains (c ∷ s) p h = elim (Option-cases (strip_prefix (c ∷ s) p)) [
  | inl e ↦ let (a, b, q) = infix_of_contains s p (rw e at h) in (c ∷ a, b, ap (λ t. c ∷ t) q)
  | inr (r, e) ↦ ([], r, (strip_prefix_iff (c ∷ s) p r).0 e)
]

-- `contains` finds exactly the texts that occur.
pub contains_iff :
    (s p : Str) → (contains s p ≡ true) ↔ ((a : Str) × (b : Str) × (s ≡ a ++ (p ++ b)))
contains_iff s p = (infix_of_contains s p, λ (a, b, e). rw e (contains_of_infix a p b))

pub contains_self : (p : Str) → contains p p ≡ true
contains_self p = (contains_iff p p).1 ([], [], sym (append-nil p))

-- `contains` misses a character exactly where no member is that character.
pub contains_char_iff : (s : Str) (d : ℕ) → (contains_char s d ≡ false) ↔ All (λ c. c ≢ d) s
unfolding contains_char
contains_char_iff [] d = (λ h. tt, λ h. refl)
contains_char_iff (c ∷ s) d = (
  λ h. ((λ e. ground arith), (contains_char_iff s d).0 (ground arith)),
  λ (n, h). ground (arith, (contains_char_iff s d).1 h),
)
