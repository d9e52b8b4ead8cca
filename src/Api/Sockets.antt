-- ===== src/Api/Sockets.antt =====
-- The WebSocket handshake and the loop of one socket.
pub mod Isolation
pub mod Handshake
pub mod Complete
use apme_api.Prelude.{
  ℕ, Bool, true, false, ◌&&◌, Option, none, some, List, [], ◌∷◌, Result, map_err, ◌==◌,
  if◌then◌else◌,
}
use apme_api.Text.{Str}
use apme_api.Domain.{Uuid, Bytes, CaseSubscription}
use apme_api.Database.{TenantEvent, Action, ◌>>=◌, lift, finish, raise_as}
use apme_api.Http.{HeaderMap, Codecs}
use apme_api.Auth.Service.{authenticate}
use apme_api.Cases.Lookup.{tenant_context}
use apme_api.Api.Errors.{ApiError, authentication, cases}
use apme_api.Api.Access.{AppState}

pub record WebSocketQuery : Type 0 where
  pub tenant_id : Uuid
  pub case_id : Option Uuid

-- The subscription with which the upgraded socket runs its loop.
unfoldable pub websocket :
    Codecs → AppState → WebSocketQuery → HeaderMap → ℕ → Action ApiError CaseSubscription
websocket codecs state query headers now = do
  subject ← lift (map_err authentication (authenticate codecs state.auth headers now))
  context ← raise_as cases (tenant_context subject query.tenant_id)
  finish (record { tenant_id = query.tenant_id; case_id = query.case_id })

-- `case_id.is_none_or(|case_id| case_id == event.case_id)`
abbrev covers_case : Option Uuid → Uuid → Bool
covers_case none event_case = true
covers_case (some case_id) event_case = case_id == event_case

unfoldable pub subscription_allows : CaseSubscription → TenantEvent → Bool
subscription_allows subscription event =
    subscription.tenant_id == event.tenant_id && covers_case subscription.case_id event.case_id

-- What one `select!` yields: from the broadcast receiver, or from the peer.
pub data Arrival : Type 0 where
  delivered : TenantEvent → Arrival
  lagged : ℕ → Arrival
  channel_closed : Arrival
  ping : Bytes → Arrival
  close ended failed : Arrival
  other_message : Arrival

pub data Message : Type 0 where
  text : Str → Message
  pong : Bytes → Message

-- What an arrival calls for.
pub data Reaction : Type 0 where
  send : Message → Reaction
  ignore stop : Reaction

abbrev send_text : Option Str → Reaction
send_text none = stop
send_text (some body) = send (text body)

-- The arms of the `select!`; `render` is `serde_json::to_string`.
unfoldable pub react : (TenantEvent → Option Str) → CaseSubscription → Arrival → Reaction
react render subscription (delivered event) =
    if subscription_allows subscription event then send_text (render event) else ignore
react render subscription (lagged n) = ignore
react render subscription channel_closed = stop
react render subscription (ping payload) = send (pong payload)
react render subscription close = stop
react render subscription ended = stop
react render subscription failed = stop
react render subscription other_message = ignore

-- The loop over what arrives, each with whether a send at that moment succeeds. The answer is what
-- was sent, and whether the loop was left.
abbrev pub proceed : Reaction → Bool → List Message × Bool → List Message × Bool
proceed stop sends rest = ([], true)
proceed ignore sends rest = rest
proceed (send message) true rest = (message ∷ rest.0, rest.1)
proceed (send message) false rest = ([], true)

unfoldable pub socket_loop :
    (TenantEvent → Option Str) → CaseSubscription → List (Arrival × Bool) → List Message × Bool
socket_loop render subscription [] = ([], false)
socket_loop render subscription ((arrival, sends) ∷ later) =
    proceed (react render subscription arrival) sends (socket_loop render subscription later)
