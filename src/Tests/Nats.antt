-- ===== src/Tests/Nats.antt =====
-- The NATS status worker on concrete messages.
use apme_api.Prelude.{
  ◌≡◌, refl, ◌↔◌, true, false, none, some, List, [], ◌∷◌, ◌++◌, ok, All, arith, any, all,
  if◌then◌else◌, select,
}
use apme_api.Prelude.Int.{ℤ}
use apme_api.Text.{codes, str_eq, len, strip_prefix, split, contains_char}
use apme_api.Domain.{Uuid, Bytes}
use apme_api.Transport.Nats.Options.{
  Config, validate, safe_topology_name, is_topology_char, authority_of_rest,
}
use apme_api.Transport.Nats.Topology.{
  file, limits, work_queue, explicit, StreamConfig, ConsumerConfig, request_subject,
  response_subject_prefix, Broker, connect, validate_request_stream, validate_response_stream,
  validate_consumer,
}
use apme_api.Transport.Nats.Topology.Provisioned.{IsProvisioned, connect-IsProvisioned}
use apme_api.Transport.Nats.Worker.{
  answer, decode_signal, request_schema, Wire, acknowledge, terminate, publish, Publication,
  publication_of, Fate, handle, Event, message, running, serve,
}
use apme_api.Transport.Nats.Worker.Handling.{Answers, Handled, handle-Handled}
use apme_api.Transport.Nats.Worker.Loop.{IsHandled, calls_of, serve-running_iff}
use apme_api.Transport.Nats.Queue.{
  Pending, is_settled, Queue, empty, enqueue, deliver, Reach, start, next, arrives, delivers,
}
use apme_api.Transport.Nats.Queue.Sound.{IsSound, Reach-IsSound}
use apme_api.Transport.Nats.Queue.Drained.{is_spent}

abbrev pub wire : Wire
wire = record {
  from_slice = λ payload. some (record { schema = request_schema; operation_id = 9 });
  to_vec = λ response. some (1 ∷ []);
  print_uuid = λ id. id ∷ [];
}

abbrev signal : Bytes
signal = codes "{}"

-- The publication is seen to be stored, the acknowledgement is not seen.
abbrev half_seen : Fate
half_seen (publish p) = true
half_seen acknowledge = false
half_seen terminate = false

handle_example :
    Handled wire signal half_seen (handle wire signal half_seen).0 (handle wire signal half_seen).1
handle_example = handle-Handled wire signal half_seen

-- Two messages, each of whose calls is seen to succeed.
abbrev events : List Event
events = message signal (λ call. true) ∷ message signal (λ call. true) ∷ []

all-IsHandled : All (IsHandled wire) events
unfolding handle decode_signal str_eq codes answer
all-IsHandled = (refl, (refl, tt))

serve_example :
    (((serve wire events).1 ≡ running) ↔ All (IsHandled wire) events)
    × ((serve wire events ≡ (calls_of wire events, running)) ↔ All (IsHandled wire) events)
serve_example = serve-running_iff wire events

still_running : serve wire events ≡ (calls_of wire events, running)
still_running = serve_example.1.1 all-IsHandled

-- The signal has been delivered once, and its acknowledgement was lost.
abbrev first : Pending
first = record { payload = signal; deliveries = 0 }

abbrev redelivered : Queue
redelivered = deliver wire (enqueue signal empty) [] first [] half_seen (λ call. false)

abbrev trace : Reach wire 5 empty redelivered
trace =
    next (next start (arrives signal))
      (delivers [] first [] half_seen (λ call. false) refl (omega arith))

Reach-IsSound_example : IsSound wire redelivered
Reach-IsSound_example = Reach-IsSound wire 5 trace

abbrev encodes : (id : Uuid) → (p : Publication) × Answers wire id p
encodes id = (publication_of wire id (1 ∷ []), (1 ∷ [], refl, omega arith, refl))

-- Below the limit nothing is left.
still_due : select (is_spent 5) redelivered.pending ≡ []
unfolding deliver handle decode_signal str_eq codes answer is_settled select
still_due = refl

abbrev config : Config
config = record {
  url = codes "tls://b";
  credentials_path = codes "c";
  request_stream = codes "R";
  response_stream = codes "S";
  consumer = codes "w";
}

abbrev request_stream : StreamConfig
request_stream = record {
  storage = file;
  retention = work_queue;
  subjects = request_subject ∷ [];
  duplicate_window = 1;
  allow_direct = false;
}

abbrev response_stream : StreamConfig
response_stream = record {
  storage = file;
  retention = limits;
  subjects = (response_subject_prefix ++ codes ".*") ∷ [];
  duplicate_window = 1;
  allow_direct = true;
}

abbrev consumer : ConsumerConfig
consumer = record {
  deliver_subject = none;
  durable_name = some (codes "w");
  ack_policy = explicit;
  filter_subject = request_subject;
  max_deliver = ℤ.pos 5;
  max_ack_pending = ℤ.pos 64;
}

abbrev broker : Broker
broker = record {
  load_credentials = λ path. some path;
  connect = λ options url. if options.require_tls then some tt else none;
  get_stream =
      λ name. if str_eq name (codes "R") then some request_stream else some response_stream;
  get_consumer = λ stream name. some consumer;
}

connected : connect broker config ≡ ok tt
unfolding connect validate strip_prefix codes authority_of_rest split contains_char
    safe_topology_name len all is_topology_char str_eq validate_request_stream any
    validate_response_stream validate_consumer
connected = refl

connect_example : IsProvisioned broker config
connect_example = connect-IsProvisioned broker config connected
