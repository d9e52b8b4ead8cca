-- ===== src/Prelude/Results.antt =====
-- Rust's `Result`, with the chain of `?` as a monad.
use mathlib.Core.Path.{◌≡◌, refl}
use mathlib.Core.Logic.{◌⊎◌, inl, inr, ◌↔◌}
use mathlib.Core.Bool.{Bool, true, false}
use mathlib.Core.Option.{Option, none, some}
use mathlib.Core.List.{List, [], ◌∷◌}
use native.Mathlib.Omega.{arith}

pub data Result {ℓ κ} (E : Type ℓ) (A : Type κ) : Type (ℓ ⊔ κ) where
  ok : A → Result E A
  err : E → Result E A

module _ {ℓ κ} {E : Type ℓ} {A : Type κ} where
  -- `Option::ok_or`.
  abbrev pub ok_or : Option A → E → Result E A
  ok_or (some a) e = ok a
  ok_or none e = err e

  -- `Result::ok`.
  abbrev pub to_option : Result E A → Option A
  to_option (ok a) = some a
  to_option (err e) = none

  -- `Result::map_err`.
  abbrev pub map_err {μ} : {F : Type μ} → (E → F) → Result E A → Result F A
  map_err f (ok a) = ok a
  map_err f (err e) = err (f e)

  -- `?` in a function that returns a `Result`.
  abbrev pub and_then {μ} : {B : Type μ} → Result E A → (A → Result E B) → Result E B
  and_then (ok a) f = f a
  and_then (err e) f = err e

-- `Option::filter`.
abbrev pub filter_some {ℓ} : {A : Type ℓ} → (A → Bool) → Option A → Option A
filter_some p none = none
filter_some p (some a) = elim (p a) [ true ↦ some a | false ↦ none ]

-- `Option::and_then`.
abbrev pub bind_some {ℓ κ} : {A : Type ℓ} {B : Type κ} → Option A → (A → Option B) → Option B
bind_some none f = none
bind_some (some a) f = f a

-- Raise `e` where the test fails: `anyhow::ensure!`, and a guarded early return.
abbrev pub ensure {ℓ} : {E : Type ℓ} → Bool → E → Result E (Unit {0})
ensure true e = ok tt
ensure false e = err e

pub Result-cases {ℓ κ} :
    {E : Type ℓ} {A : Type κ} (r : Result E A) → ((e : E) × (r ≡ err e)) ⊎ ((a : A) × (r ≡ ok a))
Result-cases (ok a) = inr (a, refl)
Result-cases (err e) = inl (e, refl)

abbrev pub is_some {ℓ} : {A : Type ℓ} → Option A → Bool
is_some none = false
is_some (some _) = true

abbrev pub is_none {ℓ} : {A : Type ℓ} → Option A → Bool
is_none none = true
is_none (some _) = false

-- `iter().map(f).collect()` into a `Result`: the first error is the answer.
unfoldable pub collect_map {ℓ κ μ} :
    {E : Type ℓ} {A : Type κ} {B : Type μ} → (A → Result E B) → List A → Result E (List B)
collect_map f [] = ok []
collect_map f (x ∷ xs) = and_then (f x) λ y. and_then (collect_map f xs) λ ys. ok (y ∷ ys)

pub and_then-eq-ok {ℓ κ μ} :
    {E : Type ℓ} {A : Type κ} {B : Type μ} (r : Result E A) (f : A → Result E B) {b : B}
    → and_then r f ≡ ok b
    → (a : A) × (r ≡ ok a) × (f a ≡ ok b)
and_then-eq-ok (ok a) f h = (a, refl, h)
and_then-eq-ok (err e) f h = cc

pub map_err-eq-ok {ℓ κ μ} :
    {E : Type ℓ} {F : Type μ} {A : Type κ} (f : E → F) (r : Result E A) {a : A}
    → map_err f r ≡ ok a
    → r ≡ ok a
map_err-eq-ok f (ok a) h = ground (arith)
map_err-eq-ok f (err e) h = cc

pub ok_or-eq-ok {ℓ κ} :
    {E : Type ℓ} {A : Type κ} (o : Option A) (e : E) {a : A} → ok_or o e ≡ ok a → o ≡ some a
ok_or-eq-ok (some b) e h = ground arith
ok_or-eq-ok none e h = cc

pub ensure-eq-ok {ℓ} : {E : Type ℓ} (b : Bool) (e : E) {u : Unit {0}} → ensure b e ≡ ok u → b ≡ true
ensure-eq-ok true e h = refl
ensure-eq-ok false e h = cc

-- Two lists of one length, related member by member.
abbrev pub Pairs {ℓ κ} : {A : Type ℓ} {B : Type κ} → (A → B → Type 0) → List A → List B → Type 0
Pairs R [] [] = Unit
Pairs R (x ∷ xs) (y ∷ ys) = R x y × Pairs R xs ys
Pairs R _ _ = ⊥

-- A collection succeeds exactly with the results of its members, in order.
pub collect_map_iff {ℓ κ μ} :
    {E : Type ℓ} {A : Type κ} {B : Type μ} (f : A → Result E B) (R : A → B → Type 0)
    → ((x : A) (y : B) → (f x ≡ ok y) ↔ R x y)
    → (xs : List A) (ys : List B) → (collect_map f xs ≡ ok ys) ↔ Pairs R xs ys
unfolding collect_map
collect_map_iff f R each [] [] = (λ h. tt, λ h. refl)
collect_map_iff f R each [] (y ∷ ys) = (λ h. cc, λ h. absurd h)
collect_map_iff f R each (x ∷ xs) [] = (
  λ h.
      let (y, e, h1) = and_then-eq-ok (f x) _ h in
      let (ys, e', h2) = and_then-eq-ok (collect_map f xs) _ h1 in cc h2,
  λ h. absurd h,
)
collect_map_iff f R each (x ∷ xs) (z ∷ zs) = (
  λ h.
      let (y, e, h1) = and_then-eq-ok (f x) _ h in
      let (ys, e', h2) = and_then-eq-ok (collect_map f xs) _ h1 in
      ((each x z).0 (cc (e, h2)), (collect_map_iff f R each xs zs).0 (cc (e', h2))),
  λ (r, rs). rw ((each x z).1 r, (collect_map_iff f R each xs zs).1 rs),
)

pub bind_some-eq-some {ℓ κ} :
    {A : Type ℓ} {B : Type κ} (o : Option A) (f : A → Option B) {b : B}
    → bind_some o f ≡ some b
    → (a : A) × (o ≡ some a) × (f a ≡ some b)
bind_some-eq-some none f h = cc
bind_some-eq-some (some a) f h = (a, refl, h)
