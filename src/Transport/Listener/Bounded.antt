-- ===== src/Transport/Listener/Bounded.antt =====
-- How many connections there are at once.
use apme_api.Prelude.{
  ℕ, ◌+◌, ◌≡◌, refl, ◌↔◌, Bool, true, false, Option, none, some, List, [], ◌∷◌, ok, arith, zero,
  suc, bind_some, ensure, map_err, map_err-eq-ok, and_then-eq-ok,
}
use apme_api.Text.{Str}
use apme_api.Transport.Options.{Config}
use apme_api.Transport.Tls.{Rustls, load_tls_config}
use apme_api.Transport.Listener.{
  Returned, shut_down, shutdown_channel_closed, accept_failed, address_not_bound, tls_config, leave,
  admit, looped, fewer, Server, bind, Event, shutdown_changed, shutdown_closed, accept,
  handshake_failed, handshake_done, connection_ended, step, after, run,
}

-- Every permit is free or held by one task.
abbrev pub IsBounded : ℕ → Server → Type 0
IsBounded most server = server.permits + (server.handshaking + server.connected) ≡ most

looped-IsBounded :
    (most : ℕ) (returned : Option Returned) (server next : Server)
    → IsBounded most server
    → looped returned server ≡ some next
    → IsBounded most next
looped-IsBounded most none server next bounded h = cc
looped-IsBounded most (some how) server next bounded h = cc

admit-IsBounded :
    (most permits : ℕ) (server : Server)
    → server.permits ≡ permits
    → IsBounded most server
    → IsBounded most (admit permits server)
admit-IsBounded most zero server e bounded = bounded
admit-IsBounded most (suc permits) server e bounded = ground arith

fewer_then :
    (n : ℕ) (f : ℕ → Option Server) (next : Server)
    → bind_some (fewer n) f ≡ some next
    → (m : ℕ) × (n ≡ suc m) × (f m ≡ some next)
fewer_then zero f next h = cc
fewer_then (suc n) f next h = (n, refl, h)

step-IsBounded :
    (most : ℕ) (server next : Server) (event : Event)
    → IsBounded most server
    → step server event ≡ some next
    → IsBounded most next
unfolding step
step-IsBounded most server next shutdown_changed bounded h =
    looped-IsBounded most server.returned (leave shut_down server) next bounded h
step-IsBounded most server next shutdown_closed bounded h =
    looped-IsBounded most server.returned (leave shutdown_channel_closed server) next bounded h
step-IsBounded most server next (accept false) bounded h =
    looped-IsBounded most server.returned (leave accept_failed server) next bounded h
step-IsBounded most server next (accept true) bounded h =
    looped-IsBounded most server.returned (admit server.permits server) next
      (admit-IsBounded most server.permits server refl bounded) h
step-IsBounded most server next handshake_failed bounded h =
    let (m, e, after) = fewer_then server.handshaking _ next h in ground arith
step-IsBounded most server next handshake_done bounded h =
    let (m, e, after) = fewer_then server.handshaking _ next h in ground arith
step-IsBounded most server next connection_ended bounded h =
    let (m, e, after) = fewer_then server.connected _ next h in ground arith

after-IsBounded :
    (most : ℕ) (server : Server) (next : Option Server)
    → IsBounded most server
    → ((s : Server) → next ≡ some s → IsBounded most s)
    → IsBounded most (after server next)
after-IsBounded most server none bounded h = bounded
after-IsBounded most server (some next) bounded h = h next refl

run-IsBounded :
    (most : ℕ) (server : Server) (events : List Event)
    → IsBounded most server
    → IsBounded most (run server events)
unfolding run
run-IsBounded most server [] bounded = bounded
run-IsBounded most server (event ∷ events) bounded =
    run-IsBounded most (after server (step server event)) events (
      after-IsBounded most server (step server event) bounded
        λ next e. step-IsBounded most server next event bounded e)

-- A listener that is bound has its configuration, its TLS set-up, and every permit free.
pub bind_sound :
    (listens : Str → Bool) (tls : Rustls) (config : Config) (server : Server)
    → bind listens tls config ≡ ok server
    → (server.config ≡ config)
      × (load_tls_config tls config ≡ ok server.tls)
      × (server.permits ≡ config.max_connections)
      × IsBounded config.max_connections server
unfolding bind
bind_sound listens tls config server h =
    let (u, e, h1) = and_then-eq-ok (ensure (listens config.bind) address_not_bound) _ h in
    let (s, loaded, h2) = and_then-eq-ok (map_err tls_config (load_tls_config tls config)) _ h1 in
    let found = map_err-eq-ok tls_config _ loaded in ground arith

admit_same : (permits : ℕ) (server : Server) → (admit permits server ≡ server) ↔ (permits ≡ 0)
admit_same zero server = (λ h. refl, λ h. refl)
admit_same (suc permits) server = (λ h. ground arith, λ h. ground arith)

looped-some :
    (returned : Option Returned) (server after : Server)
    → (looped returned server ≡ some after) ↔ ((returned ≡ none) × (server ≡ after))
looped-some none server after = ground arith
looped-some (some how) server after = ground arith

drops_iff :
    (most : ℕ) (server : Server)
    → IsBounded most server
    → (step server (accept true) ≡ some server)
      ↔ ((server.returned ≡ none) × (server.handshaking + server.connected ≡ most))
unfolding step
drops_iff most server bounded = (
  λ h.
      let (on, same) = (looped-some server.returned (admit server.permits server) server).0 h in
      let free = (admit_same server.permits server).0 same in (on, ground arith),
  λ (on, full).
      (looped-some server.returned (admit server.permits server) server).1
        (on, (admit_same server.permits server).1 (ground arith)),
)

-- Once the listener is bound, every permit is free or held by one connection, in its handshake or
-- served, whatever happens and in whatever order: there are never more connections than
-- `max_connections`. A stream that is then accepted is dropped exactly where that many are there.
pub run-bounded :
    (listens : Str → Bool) (tls : Rustls) (config : Config) (server : Server) (events : List Event)
    → bind listens tls config ≡ ok server
    → let next = run server events in
      (next.permits + (next.handshaking + next.connected) ≡ config.max_connections)
      × ((step next (accept true) ≡ some next)
          ↔ ((next.returned ≡ none) × (next.handshaking + next.connected ≡ config.max_connections)))
run-bounded listens tls config server events h =
    let bounded =
      run-IsBounded config.max_connections server events
        (bind_sound listens tls config server h).3 in
    (bounded, drops_iff config.max_connections (run server events) bounded)
