-- ===== src/Database/Silence.antt =====
-- Code that publishes no event, and the rules by which sequences of such code are shown to be so.
use apme_api.Prelude.{◌≡◌, refl, List, Result, ok, err}
use apme_api.Database.{
  SqlError, Tables, TenantEvent, World, Action, continue, lift, finish, raise_as, Query, execute,
  read,
}

-- A run that began with these events ends with them.
abbrev pub IsSilent : {E A : Type 0} → List TenantEvent → Result E A × World → Type 0
IsSilent events run = run.1.published ≡ events

module _ {E A : Type 0} where
  pub continue-IsSilent :
      {B : Type 0} (events : List TenantEvent) (p : Result E A × World) (f : A → Action E B)
      → IsSilent events p
      → ((a : A) (u : World) → u.published ≡ events → IsSilent events (f a u))
      → IsSilent events (continue p f)
  unfolding continue
  continue-IsSilent events (ok a, w) f h k = k a w h
  continue-IsSilent events (err e, w) f h k = h

  pub lift-IsSilent : (r : Result E A) (w : World) → IsSilent w.published (lift r w)
  unfolding lift
  lift-IsSilent r w = refl

  pub raise_as-IsSilent :
      {F : Type 0} (events : List TenantEvent) (f : E → F) (m : Action E A) (w : World)
      → IsSilent events (m w)
      → IsSilent events (raise_as f m w)
  unfolding raise_as
  raise_as-IsSilent events f m w h = h

pub finish-IsSilent :
    (E : Type 0) {A : Type 0} (a : A) (w : World) → IsSilent {E = E} w.published (finish a w)
unfolding finish
finish-IsSilent E a w = refl

pub execute-IsSilent : {A : Type 0} (q : Query A) (w : World) → IsSilent w.published (execute q w)
unfolding execute
execute-IsSilent q w = refl

pub read-IsSilent :
    {A : Type 0} (q : Tables → Result SqlError A) (w : World) → IsSilent w.published (read q w)
unfolding read
read-IsSilent q w = refl
