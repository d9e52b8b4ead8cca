-- ===== src/Transport/Tcp.antt =====
-- The mTLS listener: one frame (`execute`) and one connection (`serve_connection`).
pub mod Authority
pub mod Frames
use apme_api.Prelude.{
  ℕ, zero, suc, ◌*◌, Bool, true, false, ◌&&◌, Option, none, some, filter_some, leb, length, List,
  [], ◌∷◌, Result, ok, err, if◌then◌else◌,
}
use apme_api.Text.{Str, codes}
use apme_api.Domain.{Uuid, Bytes, PersistedCase}
use apme_api.Database.{World, Action, ◌>>=◌, raise_as}
use apme_api.Http.{Codecs}
use apme_api.Auth.Session.{cases_read_scope}
use apme_api.Cases.Lookup
use apme_api.Api.Errors.{code}
use apme_api.Api.Access.{AppState, authorize_token}

abbrev pub max_request_bytes : ℕ
max_request_bytes = 20 * 1024

abbrev pub max_response_bytes : ℕ
max_response_bytes = 64 * 1024

pub data Operation : Type 0 where
  list_cases : Operation

pub record FrameRequest : Type 0 where
  pub request_id : Uuid
  pub tenant_id : Uuid
  pub bearer_token : Str
  pub operation : Operation

-- The JSON value `{"cases": .., "mode": ..}`.
pub record Payload : Type 0 where
  pub cases : List PersistedCase
  pub mode : Str

pub record FrameResponse : Type 0 where
  pub request_id : Uuid
  pub status : Str
  pub payload : Option Payload
  pub error : Option Str

-- `serde_json::from_slice` and `serde_json::to_vec` are parameters.
pub record Wire : Type 0 where
  pub from_slice : Bytes → Option FrameRequest
  pub to_vec : FrameResponse → Option Bytes

abbrev pub or_else_bytes : Option Bytes → Bytes → Bytes
or_else_bytes none otherwise = otherwise
or_else_bytes (some bytes) otherwise = bytes

abbrev pub failure : Uuid → Str → FrameResponse
failure request_id error = record {
  request_id = request_id;
  status = codes "error";
  payload = none;
  error = some error;
}

abbrev pub encoding_failed : Bytes
encoding_failed = codes "{\"status\":\"error\",\"error\":\"encoding_failed\"}"

unfoldable pub encode_failure : Wire → Uuid → Str → Bytes
encode_failure wire request_id error =
    or_else_bytes (wire.to_vec (failure request_id error)) encoding_failed

abbrev pub success : Uuid → List PersistedCase → FrameResponse
success request_id cases = record {
  request_id = request_id;
  status = codes "ok";
  payload = some (record { cases = cases; mode = codes "stateful_mtls_tcp" });
  error = none;
}

-- The two steps that may fail, with the code that a failure is answered with. There is one operation.
unfoldable pub perform : Codecs → AppState → ℕ → FrameRequest → Action Str (List PersistedCase)
perform codecs state now request = do
  (subject, context) ← raise_as code (
      authorize_token codecs state request.bearer_token request.tenant_id (cases_read_scope ∷ [])
        now)
  raise_as (λ _. codes "temporarily_unavailable") (Lookup.list_cases context)

unfoldable pub encode : Wire → Uuid → Result Str (List PersistedCase) → Bytes
encode wire request_id (ok cases) =
    or_else_bytes
      (filter_some (λ value. leb (length value) max_response_bytes)
        (wire.to_vec (success request_id cases)))
      (encode_failure wire request_id (codes "response_too_large"))
encode wire request_id (err error) = encode_failure wire request_id error

abbrev respond : Wire → Codecs → AppState → ℕ → Option FrameRequest → World → Bytes × World
respond wire codecs state now none w = (encode_failure wire 0 (codes "invalid_request"), w)
respond wire codecs state now (some request) w =
    let performed = perform codecs state now request w in
    (encode wire request.request_id performed.0, performed.1)

-- `unix_now` is `now`, in seconds.
unfoldable pub execute : Wire → Codecs → AppState → ℕ → Bytes → World → Bytes × World
execute wire codecs state now bytes w = respond wire codecs state now (wire.from_slice bytes) w

-- What one round of the loop meets: the read within the idle time, the clock, and the fate of the send.
pub data Incoming : Type 0 where
  no_frame_in_time : Incoming
  end_of_stream : Incoming
  unreadable : Incoming
  frame : Bytes → Incoming

pub data Delivery : Type 0 where
  delivered send_timeout send_failed : Delivery

pub record Exchange : Type 0 where
  pub incoming : Incoming
  pub seconds : ℕ
  pub delivery : Delivery

-- How the connection ends; `waiting` where it has not ended yet.
pub data Ending : Type 0 where
  finished idle_timeout frame_error invalid_length response_timeout response_error waiting : Ending

-- `anyhow::ensure!` on the response.
unfoldable pub is_sendable : Bytes → Bool
is_sendable response = leb 1 (length response) && leb (length response) max_response_bytes

-- `max_frame_length` of the codec, which refuses to decode a longer frame and to encode one.
unfoldable pub fits_frame : Bytes → Bool
fits_frame bytes = leb (length bytes) max_request_bytes

-- The send of a response that the codec has encoded.
abbrev pub delivered_as : Delivery → Bytes → List Bytes × Ending → List Bytes × Ending
delivered_as delivered response rest = (response ∷ rest.0, rest.1)
delivered_as send_timeout response rest = ([], response_timeout)
delivered_as send_failed response rest = ([], response_error)

-- A response that the codec does not encode is an error of the send, before anything is written.
unfoldable pub sent : Delivery → Bytes → List Bytes × Ending → List Bytes × Ending
sent delivery response rest =
    if fits_frame response then delivered_as delivery response rest else ([], response_error)

-- The read of one round.
abbrev pub receive : Incoming → (Bytes → List Bytes × Ending) → List Bytes × Ending
receive no_frame_in_time answer = ([], idle_timeout)
receive end_of_stream answer = ([], finished)
receive unreadable answer = ([], frame_error)
receive (frame bytes) answer = if fits_frame bytes then answer bytes else ([], frame_error)

-- The responses that were delivered, and the ending.
unfoldable pub serve_connection :
    Wire → Codecs → AppState → ℕ → List Exchange → World → List Bytes × Ending
serve_connection wire codecs state zero exchanges w = ([], finished)
serve_connection wire codecs state (suc requests) [] w = ([], waiting)
serve_connection wire codecs state (suc requests) (x ∷ exchanges) w = receive x.incoming λ bytes.
    let (response, u) = execute wire codecs state x.seconds bytes w in
    let rest = serve_connection wire codecs state requests exchanges u in
    if is_sendable response then sent x.delivery response rest else ([], invalid_length)
