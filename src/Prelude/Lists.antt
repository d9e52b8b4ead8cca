-- ===== src/Prelude/Lists.antt =====
-- Lists measured by native numbers, Boolean quantifiers, and predicates on all members.
use Prim.Native.Nat.{ℕ, suc, ◌+◌}
use mathlib.Core.Path.{◌≡◌, refl, ap}
use mathlib.Core.Logic.{◌↔◌, inl, inr}
use mathlib.Core.Bool.{Bool, true, false, ◌&&◌, ◌||◌}
use mathlib.Core.Option.{Option, none, some}
use mathlib.Core.List.{List, [], ◌∷◌, ◌++◌}
use native.Mathlib.Omega.{arith}
use apme_api.Prelude.Tests.{if◌then◌else◌, Bool-cases}

module _ {ℓ} {A : Type ℓ} where
  abbrev pub length : List A → ℕ
  length [] = 0
  length (x ∷ xs) = suc (length xs)

  -- `Iterator::any` and `Iterator::all`.
  unfoldable pub any : (A → Bool) → List A → Bool
  any p [] = false
  any p (x ∷ xs) = p x || any p xs

  unfoldable pub all : (A → Bool) → List A → Bool
  all p [] = true
  all p (x ∷ xs) = p x && all p xs

  -- `where` in a query, and `Iterator::filter`.
  unfoldable pub select : (A → Bool) → List A → List A
  select p [] = []
  select p (x ∷ xs) = let rest = select p xs in if p x then x ∷ rest else rest

  abbrev pub is_empty_list : List A → Bool
  is_empty_list [] = true
  is_empty_list (_ ∷ _) = false

  abbrev pub first : List A → Option A
  first [] = none
  first (x ∷ _) = some x

  pub length-append : (xs ys : List A) → length (xs ++ ys) ≡ length xs + length ys
  length-append [] ys = omega arith
  length-append (x ∷ xs) ys = omega (arith, length-append xs ys)

module _ {ℓ κ} {A : Type ℓ} (P : A → Type κ) where
  -- `P` holds of every member.
  abbrev pub All : List A → Type κ
  All [] = Unit
  All (x ∷ xs) = P x × All xs

  pub All-append : (xs ys : List A) → All xs → All ys → All (xs ++ ys)
  All-append [] ys h k = k
  All-append (x ∷ xs) ys (p, h) k = (p, All-append xs ys h k)

module _ {ℓ} {A : Type ℓ} (p : A → Bool) where
  -- A Boolean `any` fails exactly when the test fails at every member.
  pub any-eq-false_iff : (xs : List A) → (any p xs ≡ false) ↔ All (λ x. p x ≡ false) xs
  unfolding any
  any-eq-false_iff [] = ground arith
  any-eq-false_iff (x ∷ xs) = ground (arith, any-eq-false_iff xs)

  pub all-eq-true_iff : (xs : List A) → (all p xs ≡ true) ↔ All (λ x. p x ≡ true) xs
  unfolding all
  all-eq-true_iff [] = ground arith
  all-eq-true_iff (x ∷ xs) = ground (arith, all-eq-true_iff xs)

-- A test that decides a predicate, on all members.
pub all_iff {ℓ κ} :
    {A : Type ℓ} (p : A → Bool) (P : A → Type κ)
    → ((x : A) → (p x ≡ true) ↔ P x)
    → (xs : List A) → (all p xs ≡ true) ↔ All P xs
unfolding all
all_iff p P each [] = (λ h. tt, λ h. refl)
all_iff p P each (x ∷ xs) = (
  λ h. ((each x).0 (ground arith), (all_iff p P each xs).0 (ground arith)),
  λ (h, k). rw ((each x).1 h) ((all_iff p P each xs).1 k),
)

module _ {ℓ} {A : Type ℓ} (p q : A → Bool) where
  -- A selection by a narrower test may come after one by a wider test.
  pub select-select :
      (xs : List A) → ((x : A) → p x ≡ true → q x ≡ true) → select p (select q xs) ≡ select p xs
  unfolding select
  select-select [] h = refl
  select-select (x ∷ xs) h = elim (Bool-cases (q x)) [
    | inl e ↦ rw e (elim (Bool-cases (p x)) [
      | inl d ↦ rw d (ap (λ ys. x ∷ ys) (select-select xs h))
      | inr d ↦ rw d (select-select xs h)
    ])
    | inr e ↦ elim (Bool-cases (p x)) [
      | inl d ↦ cc (h x d)
      | inr d ↦ rw (e, d) (select-select xs h)
    ]
  ]
