-- ===== src/Database/Views.antt =====
-- What the tables hold about one tenant, and runs that a tenant cannot tell apart.
use apme_api.Prelude.{◌≡◌, refl, ap, List, [], ◌∷◌, select, ◌==◌, Result, ok, err, map_err, All}
use apme_api.Domain.{Uuid, Bytes}
use apme_api.Database.{
  SqlError, TenantRow, MembershipRow, CaseRow, EventRow, Tables, Link, up, lost_request, lost_reply,
  Turn, World, Action, continue, lift, finish, raise_as, Query, execute, read, current, next_turn,
  later_turns, transmit,
}

-- The rows of one tenant. `hidden` is its part of the tables that only the procedures read.
pub record TenantView : Type 0 where
  pub tenants : List TenantRow
  pub memberships : List MembershipRow
  pub cases : List CaseRow
  pub events : List EventRow
  pub hidden : Bytes

-- `part` says which part of the hidden tables belongs to a tenant.
module _ (part : Uuid → Bytes → Bytes) (tenant : Uuid) where
  abbrev pub view : Tables → TenantView
  view t = record {
    tenants = select (λ r. r.id == tenant) t.tenants;
    memberships = select (λ r. r.tenant_id == tenant) t.memberships;
    cases = select (λ r. r.tenant_id == tenant) t.cases;
    events = select (λ r. r.tenant_id == tenant) t.events;
    hidden = part tenant t.hidden;
  }

  -- A statement that answers, and changes the tenant's rows, by the tenant's rows alone.
  abbrev pub IsSeparate : {A : Type 0} → Query A → Type 0
  IsSeparate q =
      (a b : Tables) → view a ≡ view b → ((q a).0 ≡ (q b).0) × (view (q a).1 ≡ view (q b).1)

  -- A statement that leaves the tenant's rows as they are.
  abbrev pub IsElsewhere : {A : Type 0} → Query A → Type 0
  IsElsewhere q = (t : Tables) → view (q t).1 ≡ view t

  -- Two turns fail alike, and what others do there does to the tenant's rows the same.
  abbrev pub SameTurn : Turn → Turn → Type 0
  SameTurn t u =
      (t.link ≡ u.link) × ((a b : Tables) → view a ≡ view b → view (t.others a) ≡ view (u.others b))

  abbrev pub SameTurns : List Turn → List Turn → Type 0
  SameTurns [] [] = Unit
  SameTurns (t ∷ ts) (u ∷ us) = SameTurn t u × SameTurns ts us
  SameTurns _ _ = ⊥

  -- Two worlds that the tenant cannot tell apart.
  pub record Agree (w v : World) : Type 0 where
    pub tables : view w.tables ≡ view v.tables
    pub turns : SameTurns w.schedule v.schedule

  -- Two runs that the tenant cannot tell apart.
  abbrev pub IsAlike : {E A : Type 0} → Result E A × World → Result E A × World → Type 0
  IsAlike p q = (p.0 ≡ q.0) × Agree p.1 q.1

  pub continue-IsAlike :
      {E A B : Type 0} (p q : Result E A × World) (f : A → Action E B)
      → IsAlike p q
      → ((a : A) (u v : World) → p ≡ (ok a, u) → Agree u v → IsAlike (f a u) (f a v))
      → IsAlike (continue p f) (continue q f)
  unfolding continue
  continue-IsAlike (ok a, w) (ok b, v) f (e, h) k =
      let same : a ≡ b = cc in rw (← same) (k a w v refl h)
  continue-IsAlike (ok a, w) (err b, v) f (e, h) k = cc
  continue-IsAlike (err a, w) (ok b, v) f (e, h) k = cc
  continue-IsAlike (err a, w) (err b, v) f (e, h) k = (cc, h)

  pub lift-IsAlike :
      {E A : Type 0} (r : Result E A) (w v : World) → Agree w v → IsAlike (lift r w) (lift r v)
  unfolding lift
  lift-IsAlike r w v h = (refl, h)

  pub finish-IsAlike :
      (E : Type 0) {A : Type 0} (a : A) (w v : World)
      → Agree w v
      → IsAlike {E = E} (finish a w) (finish a v)
  unfolding finish
  finish-IsAlike E a w v h = (refl, h)

  pub raise_as-IsAlike :
      {E F A : Type 0} (f : E → F) (m n : Action E A) (w v : World)
      → IsAlike (m w) (n v)
      → IsAlike (raise_as f m w) (raise_as f n v)
  unfolding raise_as
  raise_as-IsAlike f m n w v (e, h) = (ap (map_err f) e, h)

  transmit-eq :
      {A : Type 0} (q : Query A) (link link' : Link) (a b : Tables)
      → IsSeparate q
      → link ≡ link'
      → view a ≡ view b
      → ((transmit link q a).0 ≡ (transmit link' q b).0)
        × (view (transmit link q a).1 ≡ view (transmit link' q b).1)
  transmit-eq q up up a b apart e same = apart a b same
  transmit-eq q (lost_request d) (lost_request d') a b apart e same = (cc, same)
  transmit-eq q (lost_reply d) (lost_reply d') a b apart e same = (cc, (apart a b same).1)
  transmit-eq q up (lost_request _) a b apart e same = cc
  transmit-eq q up (lost_reply _) a b apart e same = cc
  transmit-eq q (lost_request _) up a b apart e same = cc
  transmit-eq q (lost_request _) (lost_reply _) a b apart e same = cc
  transmit-eq q (lost_reply _) up a b apart e same = cc
  transmit-eq q (lost_reply _) (lost_request _) a b apart e same = cc

  next-SameTurn :
      (ts us : List Turn)
      → SameTurns ts us
      → SameTurn (next_turn ts) (next_turn us) × SameTurns (later_turns ts) (later_turns us)
  next-SameTurn [] [] h = ((refl, λ a b e. e), tt)
  next-SameTurn (t ∷ ts) (u ∷ us) h = h
  next-SameTurn [] (u ∷ us) h = absurd h
  next-SameTurn (t ∷ ts) [] h = absurd h

  pub execute-IsAlike :
      {A : Type 0} (q : Query A) (w v : World)
      → IsSeparate q
      → Agree w v
      → IsAlike (execute q w) (execute q v)
  unfolding execute current
  execute-IsAlike q w v apart h =
      let (turn, later) = next-SameTurn w.schedule v.schedule h.turns in
      let (answers, views) =
        transmit-eq q (next_turn w.schedule).link (next_turn v.schedule).link (current w)
          (current v) apart turn.0 (turn.1 w.tables v.tables h.tables) in
      (answers, record { tables = views; turns = later })

  pub read-IsAlike :
      {A : Type 0} (q : Tables → Result SqlError A) (w v : World)
      → ((a b : Tables) → view a ≡ view b → q a ≡ q b)
      → Agree w v
      → IsAlike (read q w) (read q v)
  unfolding read
  read-IsAlike q w v apart h = execute-IsAlike (λ t. (q t, t)) w v (λ a b e. (apart a b e, e)) h

  -- The turns to come leave the tenant's rows as they are.
  abbrev pub IsUndisturbed : List Turn → Type 0
  IsUndisturbed = All (λ turn. (t : Tables) → view (turn.others t) ≡ view t)
