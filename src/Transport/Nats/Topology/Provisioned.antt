-- ===== src/Transport/Nats/Topology/Provisioned.antt =====
-- The topology that the worker runs on.
use apme_api.Prelude.{
  ℕ, ◌≤◌, ◌<◌, ◌≡◌, refl, sym, ap, ◌↔◌, inl, inr, true, Option, none, some, is_none, List, [], ◌∷◌,
  ◌++◌, Memᴰ, ok, arith, any, Bool-cases, ensure, ensure-eq-ok, and_then-eq-ok, map_err-eq-ok,
  map_err, ok_or, mem_cases, ok_or-eq-ok,
}
use apme_api.Prelude.Int.{ℤ, pos, negsuc}
use apme_api.Text.{Str, codes, str_eq}
use apme_api.Text.Laws.{str_eq_iff}
use apme_api.Transport.Nats.Options.{Config, validate}
use apme_api.Transport.Nats.Options.Secure.{IsValidConfig, validate-IsValidConfig}
use apme_api.Transport.Nats.Topology.{
  ConnectOptions, options_with, StorageType, file, RetentionPolicy, work_queue, limits, AckPolicy,
  explicit, StreamConfig, ConsumerConfig, Broker, request_subject, response_subject_prefix, is_file,
  is_work_queue, is_limits, is_explicit, is_within, is_named, validate_request_stream,
  validate_response_stream, validate_consumer, config, topology, credentials_not_loaded,
  not_connected, no_request_stream, no_response_stream, no_consumer, not_on_file, wrong_retention,
  no_direct_reads, wrong_subjects, no_dedupe, not_pull_based, wrong_durable_name, implicit_acks,
  wrong_filter, max_deliver_out_of_bounds, max_ack_pending_out_of_bounds, connect,
}

-- A stream on file, with that retention, that owns the subject and drops duplicates.
pub record IsDurable (stream : StreamConfig) (retention : RetentionPolicy) (subject : Str)
    : Type 0 where
  pub on_file : stream.storage ≡ file
  pub retained : stream.retention ≡ retention
  pub owned : Memᴰ subject stream.subjects
  pub deduped : 0 < stream.duplicate_window

-- An integer between two bounds.
abbrev pub IsWithin : ℕ → ℕ → ℤ → Type 0
IsWithin low high value = (n : ℕ) × (value ≡ pos n) × (low ≤ n) × (n ≤ high)

-- A durable pull consumer of the requests, with explicit acknowledgement, redelivery and a bound on
-- what is outstanding.
pub record IsExplicit (consumer : ConsumerConfig) (name : Str) : Type 0 where
  pub pulled : consumer.deliver_subject ≡ none
  pub named : consumer.durable_name ≡ some name
  pub explicit_acks : consumer.ack_policy ≡ explicit
  pub filtered : consumer.filter_subject ≡ request_subject
  pub redelivered : IsWithin 2 100 consumer.max_deliver
  pub outstanding : IsWithin 1 4096 consumer.max_ack_pending

owned_iff :
    (subject : Str) (subjects : List Str)
    → (any (λ value. str_eq value subject) subjects ≡ true) ↔ Memᴰ subject subjects
unfolding any
owned_iff subject [] = (λ h. cc, λ m. elim m [ ])
owned_iff subject (s ∷ ss) = (
  λ h. elim (Bool-cases (str_eq s subject)) [
    | inl e ↦ Memᴰ.head (sym ((str_eq_iff s subject).0 e))
    | inr e ↦ Memᴰ.tail ((owned_iff subject ss).0 (rw e at h))
  ],
  λ m. elim (mem_cases m) [
    | inl e ↦ rw ((str_eq_iff s subject).1 (sym e)) refl
    | inr n ↦ ground (arith, (owned_iff subject ss).1 n)
  ],
)

is_file_lem : (s : StorageType) → is_file s ≡ true → s ≡ file
is_file_lem s h = ground arith

is_work_queue_lem : (r : RetentionPolicy) → is_work_queue r ≡ true → r ≡ work_queue
is_work_queue_lem r h = ground arith

is_limits_lem : (r : RetentionPolicy) → is_limits r ≡ true → r ≡ limits
is_limits_lem r h = ground arith

is_within_lem : (low high : ℕ) (z : ℤ) → is_within low high z ≡ true → IsWithin low high z
is_within_lem low high (pos n) h = (n, refl, ground arith, ground arith)
is_within_lem low high (negsuc n) h = cc

validate_request_stream-IsDurable :
    (stream : StreamConfig)
    → validate_request_stream stream ≡ ok tt
    → IsDurable stream work_queue request_subject
unfolding validate_request_stream
validate_request_stream-IsDurable stream h =
    let (_, a, h1) = and_then-eq-ok (ensure (is_file stream.storage) not_on_file) _ h in
    let (_, b, h2) =
      and_then-eq-ok (ensure (is_work_queue stream.retention) wrong_retention) _ h1 in
    let (_, c, d) =
      and_then-eq-ok
        (ensure (any (λ value. str_eq value request_subject) stream.subjects) wrong_subjects) _
        h2 in
    record {
      on_file = is_file_lem _ (ensure-eq-ok _ not_on_file a);
      retained = is_work_queue_lem _ (ensure-eq-ok _ wrong_retention b);
      owned = (owned_iff request_subject stream.subjects).0 (ensure-eq-ok _ wrong_subjects c);
      deduped = ground (arith, ensure-eq-ok _ no_dedupe d);
    }

validate_response_stream-IsDurable :
    (stream : StreamConfig)
    → validate_response_stream stream ≡ ok tt
    → IsDurable stream limits (response_subject_prefix ++ codes ".*") × (stream.allow_direct ≡ true)
unfolding validate_response_stream
validate_response_stream-IsDurable stream h =
    let (_, a, h1) = and_then-eq-ok (ensure (is_file stream.storage) not_on_file) _ h in
    let (_, b, h2) = and_then-eq-ok (ensure (is_limits stream.retention) wrong_retention) _ h1 in
    let (_, direct, h3) = and_then-eq-ok (ensure stream.allow_direct no_direct_reads) _ h2 in
    let (_, c, d) =
      and_then-eq-ok
        (ensure
          (any (λ value. str_eq value (response_subject_prefix ++ codes ".*")) stream.subjects)
          wrong_subjects)
        _ h3 in
    (
      record {
        on_file = is_file_lem _ (ensure-eq-ok _ not_on_file a);
        retained = is_limits_lem _ (ensure-eq-ok _ wrong_retention b);
        owned = (owned_iff _ stream.subjects).0 (ensure-eq-ok _ wrong_subjects c);
        deduped = ground (arith, ensure-eq-ok _ no_dedupe d);
      },
      ensure-eq-ok _ no_direct_reads direct,
    )

is_none_lem : (o : Option Str) → is_none o ≡ true → o ≡ none
is_none_lem none h = refl
is_none_lem (some s) h = cc

is_named_lem : (o : Option Str) (text : Str) → is_named o text ≡ true → o ≡ some text
is_named_lem none text h = cc
is_named_lem (some s) text h = ap some ((str_eq_iff s text).0 h)

is_explicit_lem : (a : AckPolicy) → is_explicit a ≡ true → a ≡ explicit
is_explicit_lem a h = ground arith

validate_consumer-IsExplicit :
    (consumer : ConsumerConfig) (name : Str)
    → validate_consumer consumer name ≡ ok tt
    → IsExplicit consumer name
unfolding validate_consumer
validate_consumer-IsExplicit consumer name h =
    let (_, a, h1) =
      and_then-eq-ok (ensure (is_none consumer.deliver_subject) not_pull_based) _ h in
    let (_, b, h2) =
      and_then-eq-ok (ensure (is_named consumer.durable_name name) wrong_durable_name) _ h1 in
    let (_, c, h3) = and_then-eq-ok (ensure (is_explicit consumer.ack_policy) implicit_acks) _ h2 in
    let (_, d, h4) =
      and_then-eq-ok (ensure (str_eq consumer.filter_subject request_subject) wrong_filter) _ h3 in
    let (_, e, f) =
      and_then-eq-ok (ensure (is_within 2 100 consumer.max_deliver) max_deliver_out_of_bounds) _
        h4 in
    record {
      pulled = is_none_lem _ (ensure-eq-ok _ not_pull_based a);
      named = is_named_lem _ name (ensure-eq-ok _ wrong_durable_name b);
      explicit_acks = is_explicit_lem _ (ensure-eq-ok _ implicit_acks c);
      filtered = (str_eq_iff _ _).0 (ensure-eq-ok _ wrong_filter d);
      redelivered = is_within_lem 2 100 _ (ensure-eq-ok _ max_deliver_out_of_bounds e);
      outstanding = is_within_lem 1 4096 _ (ensure-eq-ok _ max_ack_pending_out_of_bounds f);
    }

-- The worker runs: its configuration is valid, the broker was reached with the credentials of the
-- configuration and with TLS required, the requests are a work queue on file, the responses are
-- kept on file for direct reads, both streams drop duplicates, and its consumer pulls requests with
-- explicit acknowledgement.
pub record IsProvisioned (broker : Broker) (self : Config) : Type 0 where
  pub valid : IsValidConfig self
  pub options : ConnectOptions
  pub over_tls : options.require_tls ≡ true
  pub loaded : broker.load_credentials self.credentials_path ≡ some options.credentials
  pub reached : broker.connect options self.url ≡ some tt
  pub request_stream : StreamConfig
  pub response_stream : StreamConfig
  pub consumer : ConsumerConfig
  pub requests_found : broker.get_stream self.request_stream ≡ some request_stream
  pub responses_found : broker.get_stream self.response_stream ≡ some response_stream
  pub consumer_found : broker.get_consumer self.request_stream self.consumer ≡ some consumer
  pub requests_durable : IsDurable request_stream work_queue request_subject
  pub responses_durable : IsDurable response_stream limits (response_subject_prefix ++ codes ".*")
  pub responses_readable : response_stream.allow_direct ≡ true
  pub acknowledged : IsExplicit consumer self.consumer

-- A worker connects only to a broker on which everything is provisioned as `IsProvisioned` says.
pub connect-IsProvisioned :
    (broker : Broker) (self : Config) → connect broker self ≡ ok tt → IsProvisioned broker self
unfolding connect
connect-IsProvisioned broker self h =
    let (_, valid, h1) = and_then-eq-ok (map_err config (validate self)) _ h in
    let (credentials, l, h2) =
      and_then-eq-ok (ok_or (broker.load_credentials self.credentials_path) credentials_not_loaded)
        _ h1 in
    let (_, c0, h3) =
      and_then-eq-ok (ok_or (broker.connect (options_with credentials) self.url) not_connected) _
        h2 in
    let (requests, a, h4) =
      and_then-eq-ok (ok_or (broker.get_stream self.request_stream) no_request_stream) _ h3 in
    let (_, b, h5) = and_then-eq-ok (map_err topology (validate_request_stream requests)) _ h4 in
    let (responses, c, h6) =
      and_then-eq-ok (ok_or (broker.get_stream self.response_stream) no_response_stream) _ h5 in
    let (_, d, h7) = and_then-eq-ok (map_err topology (validate_response_stream responses)) _ h6 in
    let (consumer, e, f) =
      and_then-eq-ok (ok_or (broker.get_consumer self.request_stream self.consumer) no_consumer) _
        h7 in
    let (durable, readable) =
      validate_response_stream-IsDurable responses (map_err-eq-ok topology _ d) in
    record {
      valid = validate-IsValidConfig self (map_err-eq-ok config _ valid);
      options = options_with credentials;
      over_tls = refl;
      loaded = ok_or-eq-ok _ credentials_not_loaded l;
      reached = ok_or-eq-ok _ not_connected c0;
      request_stream = requests;
      response_stream = responses;
      consumer = consumer;
      requests_found = ok_or-eq-ok _ no_request_stream a;
      responses_found = ok_or-eq-ok _ no_response_stream c;
      consumer_found = ok_or-eq-ok _ no_consumer e;
      requests_durable = validate_request_stream-IsDurable requests (map_err-eq-ok topology _ b);
      responses_durable = durable;
      responses_readable = readable;
      acknowledged =
          validate_consumer-IsExplicit consumer self.consumer (map_err-eq-ok topology _ f);
    }
