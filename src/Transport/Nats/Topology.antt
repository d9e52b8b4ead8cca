-- ===== src/Transport/Nats/Topology.antt =====
-- What the worker demands of the broker: `Worker::connect` and the validation of the streams and of the
-- consumer. The types are async-nats's, with the fields that are read.
pub mod Provisioned
use apme_api.Prelude.{
  ℕ, Bool, true, false, not, ◌&&◌, Option, none, some, Result, ok, ok_or, map_err, ensure, leb, ltb,
  any, is_none, List, ◌++◌,
}
use apme_api.Prelude.Int.{ℤ, pos, negsuc}
use apme_api.Prelude.Try.{◌>>=◌, ◌>>◌}
use apme_api.Text.{Str, codes, str_eq}
use apme_api.Transport.Nats.Options.{Config, ConfigError, validate}

pub data StorageType : Type 0 where
  file memory : StorageType

pub data RetentionPolicy : Type 0 where
  limits interest work_queue : RetentionPolicy

pub data AckPolicy : Type 0 where
  explicit no_acks all_acks : AckPolicy

-- The duplicate window is in nanoseconds.
pub record StreamConfig : Type 0 where
  pub storage : StorageType
  pub retention : RetentionPolicy
  pub subjects : List Str
  pub duplicate_window : ℕ
  pub allow_direct : Bool

pub record ConsumerConfig : Type 0 where
  pub deliver_subject : Option Str
  pub durable_name : Option Str
  pub ack_policy : AckPolicy
  pub filter_subject : Str
  pub max_deliver : ℤ
  pub max_ack_pending : ℤ

-- The `anyhow` errors of the validation.
pub data TopologyError : Type 0 where
  not_on_file wrong_retention no_direct_reads wrong_subjects no_dedupe : TopologyError
  not_pull_based wrong_durable_name implicit_acks wrong_filter : TopologyError
  max_deliver_out_of_bounds max_ack_pending_out_of_bounds : TopologyError

abbrev pub request_subject : Str
request_subject = codes "apme.web_api.outbox.status"

abbrev pub response_subject_prefix : Str
response_subject_prefix = codes "apme.web_api.inbox.status"

abbrev pub is_file : StorageType → Bool
is_file file = true
is_file memory = false

abbrev pub is_work_queue : RetentionPolicy → Bool
is_work_queue work_queue = true
is_work_queue _ = false

abbrev pub is_limits : RetentionPolicy → Bool
is_limits limits = true
is_limits _ = false

abbrev pub is_explicit : AckPolicy → Bool
is_explicit explicit = true
is_explicit _ = false

-- `(low..=high).contains(&value)`
abbrev pub is_within : ℕ → ℕ → ℤ → Bool
is_within low high (pos n) = leb low n && leb n high
is_within low high (negsuc n) = false

-- `value.as_deref() == Some(text)`
abbrev pub is_named : Option Str → Str → Bool
is_named none text = false
is_named (some name) text = str_eq name text

unfoldable pub validate_request_stream : StreamConfig → Result TopologyError (Unit {0})
validate_request_stream config = do
  ensure (is_file config.storage) not_on_file
  ensure (is_work_queue config.retention) wrong_retention
  ensure (any (λ value. str_eq value request_subject) config.subjects) wrong_subjects
  ensure (ltb 0 config.duplicate_window) no_dedupe

unfoldable pub validate_response_stream : StreamConfig → Result TopologyError (Unit {0})
validate_response_stream config = do
  ensure (is_file config.storage) not_on_file
  ensure (is_limits config.retention) wrong_retention
  ensure config.allow_direct no_direct_reads
  ensure (any (λ value. str_eq value (response_subject_prefix ++ codes ".*")) config.subjects)
      wrong_subjects
  ensure (ltb 0 config.duplicate_window) no_dedupe

unfoldable pub validate_consumer : ConsumerConfig → Str → Result TopologyError (Unit {0})
validate_consumer config expected = do
  ensure (is_none config.deliver_subject) not_pull_based
  ensure (is_named config.durable_name expected) wrong_durable_name
  ensure (is_explicit config.ack_policy) implicit_acks
  ensure (str_eq config.filter_subject request_subject) wrong_filter
  ensure (is_within 2 100 config.max_deliver) max_deliver_out_of_bounds
  ensure (is_within 1 4096 config.max_ack_pending) max_ack_pending_out_of_bounds

-- The options of the connection that are not left at their defaults.
pub record ConnectOptions : Type 0 where
  pub credentials : Str
  pub require_tls : Bool
  pub name : Str
  pub connection_timeout_seconds : ℕ
  pub subscription_capacity : ℕ

abbrev pub options_with : Str → ConnectOptions
options_with credentials = record {
  credentials = credentials;
  require_tls = true;
  name = codes "apme-api";
  connection_timeout_seconds = 5;
  subscription_capacity = 256;
}

-- What async-nats answers while the worker connects; a call that fails answers `none`.
pub record Broker : Type 0 where
  pub load_credentials : Str → Option Str
  pub connect : ConnectOptions → Str → Option (Unit {0})
  pub get_stream : Str → Option StreamConfig
  pub get_consumer : Str → Str → Option ConsumerConfig

pub data ConnectError : Type 0 where
  config : ConfigError → ConnectError
  topology : TopologyError → ConnectError
  credentials_not_loaded not_connected no_request_stream no_response_stream no_consumer :
      ConnectError

-- `Worker::connect`.
unfoldable pub connect : Broker → Config → Result ConnectError (Unit {0})
connect broker self = do
  map_err config (validate self)
  credentials ← ok_or (broker.load_credentials self.credentials_path) credentials_not_loaded
  ok_or (broker.connect (options_with credentials) self.url) not_connected
  request_stream ← ok_or (broker.get_stream self.request_stream) no_request_stream
  map_err topology (validate_request_stream request_stream)
  response_stream ← ok_or (broker.get_stream self.response_stream) no_response_stream
  map_err topology (validate_response_stream response_stream)
  consumer ← ok_or (broker.get_consumer self.request_stream self.consumer) no_consumer
  map_err topology (validate_consumer consumer self.consumer)
