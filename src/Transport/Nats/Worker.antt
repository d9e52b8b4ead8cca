-- ===== src/Transport/Nats/Worker.antt =====
-- The worker's loop and the handling of one message: `Worker::serve`, `Worker::handle`, `decode_signal`.
pub mod Handling
pub mod Loop
use apme_api.Prelude.{
  ℕ, ◌*◌, Bool, true, false, Option, none, some, bind_some, ltb, leb, length, List, [], ◌∷◌, ◌++◌,
  Result, ok, err, if◌then◌else◌,
}
use apme_api.Text.{Str, codes, str_eq}
use apme_api.Domain.{Uuid, Bytes}
use apme_api.Transport.Nats.Topology.{response_subject_prefix}

abbrev pub max_signal_bytes : ℕ
max_signal_bytes = 4 * 1024

abbrev pub max_response_bytes : ℕ
max_response_bytes = 64 * 1024

abbrev pub request_schema : Str
request_schema = codes "apme.async-status-request.v1"

abbrev pub response_schema : Str
response_schema = codes "apme.async-status-response.v1"

pub record StatusRequest : Type 0 where
  pub schema : Str
  pub operation_id : Uuid

pub record StatusResponse : Type 0 where
  pub schema : Str
  pub operation_id : Uuid
  pub status : Str
  pub service : Str
  pub database_ready : Bool

-- serde_json, and the text of a UUID, are parameters.
pub record Wire : Type 0 where
  pub from_slice : Bytes → Option StatusRequest
  pub to_vec : StatusResponse → Option Bytes
  pub print_uuid : Uuid → Str

unfoldable pub decode_signal : Wire → Bytes → Option Uuid
decode_signal wire payload =
    if ltb max_signal_bytes (length payload)
    then none
    else (bind_some (wire.from_slice payload)
        λ signal. if str_eq signal.schema request_schema then some signal.operation_id else none)

abbrev pub response_to : Uuid → StatusResponse
response_to operation_id = record {
  schema = response_schema;
  operation_id = operation_id;
  status = codes "ok";
  service = codes "apme-api";
  database_ready = true;
}

-- A message that is published, with the id by which the stream drops duplicates.
pub record Publication : Type 0 where
  pub subject : Str
  pub message_id : Str
  pub payload : Bytes

unfoldable pub publication_of : Wire → Uuid → Bytes → Publication
publication_of wire operation_id payload = record {
  subject = response_subject_prefix ++ (codes "." ++ wire.print_uuid operation_id);
  message_id = codes "apme-status-response-" ++ wire.print_uuid operation_id;
  payload = payload;
}

-- A call that the worker makes of the broker. A publication is sent, and its acknowledgement awaited.
pub data Call : Type 0 where
  terminate acknowledge : Call
  publish : Publication → Call

-- Whether a call is seen to succeed.
abbrev pub Fate : Type 0
Fate = Call → Bool

pub data HandleError : Type 0 where
  not_terminated not_encoded too_large not_stored not_acknowledged : HandleError

abbrev pub seen : Bool → HandleError → Result HandleError (Unit {0})
seen true e = ok tt
seen false e = err e

-- The two calls that answer a request. The second is made only once the first is acknowledged.
unfoldable pub answer : Publication → Fate → List Call × Result HandleError (Unit {0})
answer publication fate =
    if fate (publish publication)
    then (publish publication ∷ acknowledge ∷ [], seen (fate acknowledge) not_acknowledged)
    else (publish publication ∷ [], err not_stored)

abbrev pub respond : Wire → Uuid → Option Bytes → Fate → List Call × Result HandleError (Unit {0})
respond wire operation_id none fate = ([], err not_encoded)
respond wire operation_id (some payload) fate =
    if leb (length payload) max_response_bytes
    then answer (publication_of wire operation_id payload) fate
    else ([], err too_large)

abbrev pub handle_decoded : Wire → Option Uuid → Fate → List Call × Result HandleError (Unit {0})
handle_decoded wire none fate = (terminate ∷ [], seen (fate terminate) not_terminated)
handle_decoded wire (some operation_id) fate =
    respond wire operation_id (wire.to_vec (response_to operation_id)) fate

-- The calls made for one message, and how its handling ends.
unfoldable pub handle : Wire → Bytes → Fate → List Call × Result HandleError (Unit {0})
handle wire payload fate = handle_decoded wire (decode_signal wire payload) fate

-- What one `select!` of the loop yields.
pub data Event : Type 0 where
  shutdown_changed shutdown_closed : Event
  consumer_ended receive_failed : Event
  message : Bytes → Fate → Event

-- How the loop ends; `running` where it has not ended.
pub data Ending : Type 0 where
  running stopped channel_closed ended not_received : Ending
  failed : HandleError → Ending

abbrev pub go_on :
    List Call × Result HandleError (Unit {0}) → List Call × Ending → List Call × Ending
go_on (calls, ok _) rest = (calls ++ rest.0, rest.1)
go_on (calls, err e) rest = (calls, failed e)

-- The calls made over a sequence of events, and the ending, once `consumer.messages()` has succeeded.
unfoldable pub serve : Wire → List Event → List Call × Ending
serve wire [] = ([], running)
serve wire (shutdown_changed ∷ events) = ([], stopped)
serve wire (shutdown_closed ∷ events) = ([], channel_closed)
serve wire (consumer_ended ∷ events) = ([], ended)
serve wire (receive_failed ∷ events) = ([], not_received)
serve wire (message payload fate ∷ events) = go_on (handle wire payload fate) (serve wire events)
