-- ===== src/Database/Invariants.antt =====
-- Code that keeps what holds of the tables, whatever that is, and the rules by which sequences of such code
-- are shown to do so.
use apme_api.Prelude.{◌≡◌, refl, List, [], ◌∷◌, Result, ok, err, All}
use apme_api.Database.{
  SqlError, Tables, Link, up, lost_request, lost_reply, Turn, World, Action, continue, Query,
  execute, read, current, next_turn, later_turns, transmit,
}

module _ (K : Tables → Type 0) where
  -- A statement that keeps it.
  abbrev pub Keeps : {A : Type 0} → Query A → Type 0
  Keeps q = (t : Tables) → K t → K (q t).1

  -- The turns to come keep it.
  abbrev pub IsSteady : List Turn → Type 0
  IsSteady = All (λ turn. (t : Tables) → K t → K (turn.others t))

  -- A run after which it holds, with steady turns to come.
  abbrev pub IsKept : {E A : Type 0} → Result E A × World → Type 0
  IsKept run = K run.1.tables × IsSteady run.1.schedule

  pub continue-IsKept :
      {E A B : Type 0} (p : Result E A × World) (f : A → Action E B)
      → IsKept p
      → ((a : A) (u : World) → p ≡ (ok a, u) → K u.tables → IsSteady u.schedule → IsKept (f a u))
      → IsKept (continue p f)
  unfolding continue
  continue-IsKept (ok a, w) f (e, h) k = k a w refl e h
  continue-IsKept (err a, w) f h k = h

  transmit-Keeps :
      {A : Type 0} (q : Query A) (link : Link) (t : Tables)
      → Keeps q
      → K t
      → K (transmit link q t).1
  transmit-Keeps q up t h k = h t k
  transmit-Keeps q (lost_request e) t h k = k
  transmit-Keeps q (lost_reply e) t h k = h t k

  pub next-IsSteady :
      (turns : List Turn) (t : Tables)
      → IsSteady turns
      → K t
      → K ((next_turn turns).others t) × IsSteady (later_turns turns)
  next-IsSteady [] t h k = (k, tt)
  next-IsSteady (turn ∷ turns) t (h, hs) k = (h t k, hs)

  pub execute-IsKept :
      {A : Type 0} (q : Query A) (w : World)
      → Keeps q
      → K w.tables
      → IsSteady w.schedule
      → IsKept (execute q w)
  unfolding execute current
  execute-IsKept q w keeps k h =
      let (others, later) = next-IsSteady w.schedule w.tables h k in
      (transmit-Keeps q (next_turn w.schedule).link (current w) keeps others, later)

  pub read-IsKept :
      {A : Type 0} (q : Tables → Result SqlError A) (w : World)
      → K w.tables
      → IsSteady w.schedule
      → IsKept (read q w)
  unfolding read
  read-IsKept q w k h = execute-IsKept (λ t. (q t, t)) w (λ t j. j) k h
