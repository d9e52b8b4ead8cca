-- ===== src/Tests/Listener.antt =====
-- The mTLS listener on concrete connections.
use apme_api.Prelude.{◌+◌, ◌≡◌, refl, ◌↔◌, Bool, true, none, some, List, [], ◌∷◌, ok, collect_map}
use apme_api.Text.{Str, codes}
use apme_api.Transport.Options.{Config}
use apme_api.Transport.Tls.{Rustls, ServerConfig, load_tls_config}
use apme_api.Transport.Listener.{
  Server, bind, Event, accept, handshake_done, handshake_failed, connection_ended, shutdown_changed,
  shut_down, step, run,
}
use apme_api.Transport.Listener.Bounded.{run-bounded}

abbrev pub tls : Rustls
tls = record {
  open_file = λ path. some path;
  certs = λ bytes. some (bytes ∷ []);
  private_key = λ bytes. some (some bytes);
  is_trust_anchor = λ certificate. true;
  builds_verifier = λ roots. true;
  matches_key = λ chain key. true;
}

abbrev pub config : Config
config = record {
  bind = codes "1";
  certificate_path = codes "2";
  private_key_path = codes "3";
  client_ca_path = codes "4";
  max_connections = 1;
  max_requests_per_connection = 1;
  idle_seconds = 1;
}

abbrev server_config : ServerConfig
server_config = record {
  certificates = codes "2" ∷ [];
  private_key = codes "3";
  roots = codes "4" ∷ [];
}

loaded : load_tls_config tls config ≡ ok server_config
unfolding load_tls_config collect_map
loaded = refl

abbrev pub listens : Str → Bool
listens address = true

abbrev pub bound : Server
bound = record {
  tls = server_config;
  config = config;
  permits = 1;
  handshaking = 0;
  connected = 0;
  returned = none;
}

pub is_bound : bind listens tls config ≡ ok bound
unfolding bind load_tls_config collect_map
is_bound = refl

-- The first stream takes the only permit, the second is dropped.
abbrev pub events : List Event
events = accept true ∷ handshake_done ∷ accept true ∷ []

abbrev pub full : Server
full = record bound { permits = 0; connected = 1 }

is_full : run bound events ≡ full
unfolding run step
is_full = refl

run_example :
    let next = run bound events in
    (next.permits + (next.handshaking + next.connected) ≡ config.max_connections)
    × ((step next (accept true) ≡ some next)
        ↔ ((next.returned ≡ none) × (next.handshaking + next.connected ≡ config.max_connections)))
run_example = run-bounded listens tls config bound events is_bound

-- The permit comes back, and the loop ends while no connection is there; a stream that comes later is
-- not accepted.
ended :
    run full
      (connection_ended ∷ accept true ∷ handshake_failed ∷ shutdown_changed ∷ accept true ∷ [])
    ≡ record bound { returned = some shut_down }
unfolding run step
ended = refl
