-- ===== src/Prelude/Members.antt =====
-- Membership in filtered and in joined lists.
use mathlib.Core.List.{List, [], ◌∷◌, ◌++◌, map, Memᴰ}
use mathlib.Core.Path.{◌≡◌, refl, ap}
use mathlib.Core.Logic.{◌↔◌, ◌⊎◌, inl, inr}
use mathlib.Core.Bool.{Bool, true}
use mathlib.Core.Option.{none, some}
use native.Mathlib.Omega.{arith}
use apme_api.Prelude.Tests.{Bool-cases}
use apme_api.Prelude.Lists.{All, select, first}

module _ {ℓ} {A : Type ℓ} where
  pub mem_cases : {a x : A} {xs : List A} → Memᴰ a (x ∷ xs) → (a ≡ x) ⊎ Memᴰ a xs
  mem_cases (Memᴰ.head e) = inl e
  mem_cases (Memᴰ.tail m) = inr m

  pub mem-first : {a : A} (xs : List A) → first xs ≡ some a → Memᴰ a xs
  mem-first [] h = cc
  mem-first (x ∷ xs) h = Memᴰ.head (ground arith)

  pub not-mem_of_first : {a : A} (xs : List A) → first xs ≡ none → ¬ Memᴰ a xs
  not-mem_of_first [] h m = elim m [ ]
  not-mem_of_first (x ∷ xs) h m = cc

  pub All-of-mem {κ} : (P : A → Type κ) (xs : List A) → ((a : A) → Memᴰ a xs → P a) → All P xs
  All-of-mem P [] h = tt
  All-of-mem P (x ∷ xs) h = (h x (Memᴰ.head refl), All-of-mem P xs λ a m. h a (Memᴰ.tail m))

  pub All-mem {κ} : (P : A → Type κ) (xs : List A) {a : A} → All P xs → Memᴰ a xs → P a
  All-mem P [] h m = elim m [ ]
  All-mem P (x ∷ xs) (p, h) m = elim (mem_cases m) [ inl e ↦ rw e p | inr n ↦ All-mem P xs h n ]

  pub mem-append : {a : A} (xs ys : List A) → Memᴰ a (xs ++ ys) ↔ (Memᴰ a xs ⊎ Memᴰ a ys)
  mem-append [] ys = (λ m. inr m, elim [ inl n ↦ elim n [ ] | inr m ↦ m ])
  mem-append (x ∷ xs) ys = (
    λ m. elim (mem_cases m) [
      | inl e ↦ inl (Memᴰ.head e)
      | inr n ↦ elim ((mem-append xs ys).0 n) [ inl k ↦ inl (Memᴰ.tail k) | inr k ↦ inr k ]
    ],
    elim [
      | inl m ↦ elim (mem_cases m) [
        | inl e ↦ Memᴰ.head e
        | inr n ↦ Memᴰ.tail ((mem-append xs ys).1 (inl n))
      ]
      | inr m ↦ Memᴰ.tail ((mem-append xs ys).1 (inr m))
    ],
  )

module _ {ℓ} {A : Type ℓ} (p : A → Bool) where
  mem_of_select : {a : A} (xs : List A) → Memᴰ a (select p xs) → Memᴰ a xs × (p a ≡ true)
  unfolding select
  mem_of_select [] m = elim m [ ]
  mem_of_select (x ∷ xs) m = elim (Bool-cases (p x)) [
    | inl e ↦ elim (mem_cases (rw e at m)) [
      | inl q ↦ (Memᴰ.head q, rw q e)
      | inr n ↦ let (n', q) = mem_of_select xs n in (Memᴰ.tail n', q)
    ]
    | inr e ↦ let (n, q) = mem_of_select xs (rw e at m) in (Memᴰ.tail n, q)
  ]

  select_of_mem : {a : A} (xs : List A) → Memᴰ a xs → p a ≡ true → Memᴰ a (select p xs)
  unfolding select
  select_of_mem [] m h = elim m [ ]
  select_of_mem (x ∷ xs) m h = elim (Bool-cases (p x)) [
    | inl e ↦
        rw e (elim (mem_cases m) [ inl q ↦ Memᴰ.head q | inr n ↦ Memᴰ.tail (select_of_mem xs n h) ])
    | inr e ↦ rw e (elim (mem_cases m) [ inl q ↦ cc | inr n ↦ select_of_mem xs n h ])
  ]

  -- The members of a filtered list are the members that pass the test.
  pub mem-select : {a : A} (xs : List A) → Memᴰ a (select p xs) ↔ (Memᴰ a xs × (p a ≡ true))
  mem-select xs = (mem_of_select xs, λ (m, h). select_of_mem xs m h)

module _ {ℓ κ} {A : Type ℓ} {B : Type κ} (f : A → B) where
  pub mem-map : {b : B} (xs : List A) → Memᴰ b (map f xs) → (a : A) × Memᴰ a xs × (b ≡ f a)
  mem-map [] m = elim m [ ]
  mem-map (x ∷ xs) m = elim (mem_cases m) [
    | inl e ↦ (x, Memᴰ.head refl, e)
    | inr n ↦ let (a, k, q) = mem-map xs n in (a, Memᴰ.tail k, q)
  ]

  pub map-mem : {a : A} (xs : List A) → Memᴰ a xs → Memᴰ (f a) (map f xs)
  map-mem [] m = elim m [ ]
  map-mem (x ∷ xs) m = elim (mem_cases m) [
    | inl e ↦ Memᴰ.head (ap f e)
    | inr n ↦ Memᴰ.tail (map-mem xs n)
  ]
