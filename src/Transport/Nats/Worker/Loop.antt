-- ===== src/Transport/Nats/Worker/Loop.antt =====
-- How long the loop goes on.
use apme_api.Prelude.{◌≡◌, refl, ap, ◌∙◌, ◌↔◌, List, [], ◌∷◌, ◌++◌, Result, ok, err, All}
use apme_api.Transport.Nats.Worker.{
  Wire, Call, HandleError, handle, Event, shutdown_changed, shutdown_closed, consumer_ended,
  receive_failed, message, Ending, running, go_on, serve,
}

-- A message whose handling succeeded.
abbrev pub IsHandled : Wire → Event → Type 0
IsHandled wire (message payload fate) = (handle wire payload fate).1 ≡ ok tt
IsHandled wire _ = ⊥

-- The calls that the handling of an event makes.
abbrev pub calls_of : Wire → List Event → List Call
calls_of wire [] = []
calls_of wire (message payload fate ∷ events) = (handle wire payload fate).0 ++ calls_of wire events
calls_of wire (_ ∷ events) = calls_of wire events

go_on_ok :
    (handled : List Call × Result HandleError (Unit {0})) (rest : List Call × Ending)
    → handled.1 ≡ ok tt
    → go_on handled rest ≡ (handled.0 ++ rest.0, rest.1)
go_on_ok (calls, ok tt) rest h = refl
go_on_ok (calls, err e) rest h = cc

go_on_running :
    (handled : List Call × Result HandleError (Unit {0})) (rest : List Call × Ending)
    → (go_on handled rest).1 ≡ running
    → (handled.1 ≡ ok tt) × (rest.1 ≡ running)
go_on_running (calls, ok tt) rest h = (refl, h)
go_on_running (calls, err e) rest h = cc

-- The loop is still running exactly where every event was a message that was handled with success, and
-- exactly there it is running and has made the calls of all of them, in order, and no others.
pub serve-running_iff :
    (wire : Wire) (events : List Event)
    → (((serve wire events).1 ≡ running) ↔ All (IsHandled wire) events)
      × ((serve wire events ≡ (calls_of wire events, running)) ↔ All (IsHandled wire) events)
unfolding serve
serve-running_iff wire events = (
  (to wire events, λ handled. ap (λ (r : List Call × Ending). r.1) (from wire events handled)),
  (λ h. to wire events (ap (λ (r : List Call × Ending). r.1) h), from wire events),
)
  where
    to :
        (wire : Wire) (events : List Event)
        → (serve wire events).1 ≡ running
        → All (IsHandled wire) events
    to wire [] h = tt
    to wire (shutdown_changed ∷ events) h = cc
    to wire (shutdown_closed ∷ events) h = cc
    to wire (consumer_ended ∷ events) h = cc
    to wire (receive_failed ∷ events) h = cc
    to wire (message payload fate ∷ events) h =
        let (handled, later) = go_on_running (handle wire payload fate) (serve wire events) h in
        (handled, to wire events later)

    from :
        (wire : Wire) (events : List Event)
        → All (IsHandled wire) events
        → serve wire events ≡ (calls_of wire events, running)
    from wire [] h = refl
    from wire (message payload fate ∷ events) (handled, later) =
        go_on_ok (handle wire payload fate) (serve wire events) handled
        ∙ ap (λ (r : List Call × Ending). ((handle wire payload fate).0 ++ r.0, r.1))
            (from wire events later)
    from wire (_ ∷ events) h = absurd h.0
