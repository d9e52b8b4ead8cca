-- ===== src/Database/Frames.antt =====
-- Inversion of successful code.
use apme_api.Prelude.{◌≡◌, refl, ap, ◌⊎◌, inl, inr, Result, ok, err, map_err, arith}
use apme_api.Database.{
  SqlError, Tables, World, Action, continue, lift, finish, raise_as, read, current,
}

module _ {E A : Type 0} where
  -- A sequence succeeds only where both of its parts do.
  pub continue-eq-ok :
      {B : Type 0} (p : Result E A × World) (f : A → Action E B) {b : B} {w' : World}
      → continue p f ≡ (ok b, w')
      → (a : A) × (u : World) × (p ≡ (ok a, u)) × (f a u ≡ (ok b, w'))
  unfolding continue
  continue-eq-ok {B} (ok a, u) f h = (a, u, refl, h)
  continue-eq-ok {B} (err e, u) f h = cc (ap (λ (r : Result E B × World). r.0) h)

  -- A sequence fails where its first part does, or after it where its second part does.
  pub continue-eq-err :
      {B : Type 0} (p : Result E A × World) (f : A → Action E B) {e : E} {w' : World}
      → continue p f ≡ (err e, w')
      → (p ≡ (err e, w')) ⊎ ((a : A) × (u : World) × (p ≡ (ok a, u)) × (f a u ≡ (err e, w')))
  unfolding continue
  continue-eq-err (ok a, u) f h = inr (a, u, refl, h)
  continue-eq-err (err e, u) f h = inl (ground arith)

  raised :
      {F : Type 0} (f : E → F) (p : Result E A × World) {a : A} {w' : World}
      → ◌≡◌ {A = Result F A × World} (map_err f p.0, p.1) (ok a, w')
      → p ≡ (ok a, w')
  raised {F} f (ok b, u) h = ground arith
  raised {F} f (err e, u) h = cc (ap (λ (r : Result F A × World). r.0) h)

  pub raise_as-eq-ok :
      {F : Type 0} (f : E → F) (m : Action E A) (w : World) {a : A} {w' : World}
      → raise_as f m w ≡ (ok a, w')
      → m w ≡ (ok a, w')
  unfolding raise_as
  raise_as-eq-ok f m w h = raised f (m w) h

  pub lift-eq-ok :
      (r : Result E A) (w : World) {a : A} {w' : World}
      → lift r w ≡ (ok a, w')
      → (r ≡ ok a) × (w ≡ w')
  unfolding lift
  lift-eq-ok r w h = ground arith

  pub finish-eq-ok :
      (a : A) (w : World) {b : A} {w' : World}
      → ◌≡◌ {A = Result E A × World} (finish a w) (ok b, w')
      → (a ≡ b) × (w ≡ w')
  unfolding finish
  finish-eq-ok a w h = ground arith

-- A read that succeeds returns its query's answer on the tables that it met.
pub read-eq-ok :
    {A : Type 0} (q : Tables → Result SqlError A) (w : World) {a : A} {w' : World}
    → read q w ≡ (ok a, w')
    → q (current w) ≡ ok a
unfolding read
read-eq-ok q w h = ground arith

-- A computed value comes first, and changes no world.
pub lift-then-eq-ok :
    {E A B : Type 0} (r : Result E A) (f : A → Action E B) (w : World) {b : B} {w' : World}
    → continue (lift r w) f ≡ (ok b, w')
    → (a : A) × (r ≡ ok a) × (f a w ≡ (ok b, w'))
unfolding lift continue
lift-then-eq-ok (ok a) f w h = (a, refl, h)
lift-then-eq-ok {E} {B} (err e) f w h = cc (ap (λ (r : Result E B × World). r.0) h)
