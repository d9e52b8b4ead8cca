-- ===== src/Api/Sockets/Complete.antt =====
-- Everything that a socket is sent while it stays open.
use apme_api.Prelude.{
  ◌≡◌, refl, ap, ◌⊎◌, inl, inr, Bool, true, false, Option, some, List, [], ◌∷◌, map, select, All,
  Bool-cases,
}
use apme_api.Text.{Str}
use apme_api.Domain.{Bytes, CaseSubscription}
use apme_api.Database.{TenantEvent}
use apme_api.Api.Sockets.{
  subscription_allows, Arrival, delivered, lagged, ping, other_message, Message, text, pong, react,
  socket_loop,
}

-- The case events among what arrives.
abbrev pub events_of : List (Arrival × Bool) → List TenantEvent
events_of [] = []
events_of ((delivered event, sends) ∷ later) = event ∷ events_of later
events_of (_ ∷ later) = events_of later

-- The payloads of the pings among what arrives.
abbrev pub pings_of : List (Arrival × Bool) → List Bytes
pings_of [] = []
pings_of ((ping payload, sends) ∷ later) = payload ∷ pings_of later
pings_of (_ ∷ later) = pings_of later

abbrev pub texts_of : List Message → List Str
texts_of [] = []
texts_of (text body ∷ later) = body ∷ texts_of later
texts_of (pong payload ∷ later) = texts_of later

abbrev pub pongs_of : List Message → List Bytes
pongs_of [] = []
pongs_of (text body ∷ later) = pongs_of later
pongs_of (pong payload ∷ later) = payload ∷ pongs_of later

module _ (render : TenantEvent → Option Str) (subscription : CaseSubscription) where
  -- An arrival that does not end the socket.
  abbrev pub IsKept : Arrival × Bool → Type 0
  IsKept (delivered event, sends) =
      (subscription_allows subscription event ≡ false)
      ⊎ ((sends ≡ true) × ((body : Str) × (render event ≡ some body)))
  IsKept (lagged n, sends) = Unit {0}
  IsKept (ping payload, sends) = sends ≡ true
  IsKept (other_message, sends) = Unit {0}
  IsKept (_, sends) = ⊥

  abbrev pub Sent : List (Arrival × Bool) → List Message → Type 0
  Sent arrivals messages =
      (map some (texts_of messages)
        ≡ map render (select (subscription_allows subscription) (events_of arrivals)))
      × (pongs_of messages ≡ pings_of arrivals)

  -- Where nothing that arrives closes the socket, the socket stays open. The texts that it is sent
  -- are the renderings of the delivered events that its subscription allows, each once and in
  -- order, and it answers every ping, in order, with its payload.
  pub socket_loop_complete :
      (arrivals : List (Arrival × Bool))
      → All IsKept arrivals
      → ((socket_loop render subscription arrivals).1 ≡ false)
        × Sent arrivals (socket_loop render subscription arrivals).0
  unfolding socket_loop react select
  socket_loop_complete [] h = (refl, (refl, refl))
  socket_loop_complete ((delivered event, sends) ∷ later) (kept, h) =
      let rest = socket_loop_complete later h in
      elim kept [
        | inl other ↦ rw other rest
        | inr (passed, (body, rendered)) ↦
            elim (Bool-cases (subscription_allows subscription event)) [
              | inl e ↦
                  rw (e, rendered, passed) (rest.0, (ap (λ l. some body ∷ l) rest.1.0, rest.1.1))
              | inr e ↦ rw e rest
            ]
      ]
  socket_loop_complete ((lagged n, sends) ∷ later) (kept, h) = socket_loop_complete later h
  socket_loop_complete ((ping payload, sends) ∷ later) (kept, h) =
      let (on, (texts, pongs)) = socket_loop_complete later h in
      rw kept (on, (texts, ap (λ l. payload ∷ l) pongs))
  socket_loop_complete ((other_message, sends) ∷ later) (kept, h) = socket_loop_complete later h
  socket_loop_complete ((_, sends) ∷ later) (kept, h) = absurd kept
