-- ===== src/Transport/Tcp/Frames.antt =====
-- What a connection sends, and how much of it.
use apme_api.Prelude.{
  ℕ, zero, suc, ◌≤◌, ◌≡◌, inl, inr, true, length, List, [], ◌∷◌, arith, All, Bool-cases,
  if◌then◌else◌,
}
use apme_api.Domain.{Bytes}
use apme_api.Database.{World}
use apme_api.Http.{Codecs}
use apme_api.Api.Access.{AppState}
use apme_api.Transport.Tcp.{
  Wire, Exchange, Incoming, no_frame_in_time, end_of_stream, unreadable, frame, Delivery, delivered,
  Ending, invalid_length, frame_error, response_error, max_request_bytes, fits_frame, is_sendable,
  delivered_as, sent, receive, execute, serve_connection,
}

-- Between 1 and 20480 bytes, the codec's limit.
abbrev pub IsSendable : Bytes → Type 0
IsSendable response = (1 ≤ length response) × (length response ≤ max_request_bytes)

-- What a round sends, and what it is waiting to send.
abbrev pub IsFramed : ℕ → List Bytes × Ending → Type 0
IsFramed requests answer = (length answer.0 ≤ requests) × All IsSendable answer.0

nothing_sent : (requests : ℕ) (ending : Ending) → IsFramed requests ([], ending)
nothing_sent requests ending = (omega arith, tt)

received :
    (incoming : Incoming) (requests : ℕ) (answer : Bytes → List Bytes × Ending)
    → ((bytes : Bytes) → IsFramed (suc requests) (answer bytes))
    → IsFramed (suc requests) (receive incoming answer)
received (frame bytes) requests answer h = elim (Bool-cases (fits_frame bytes)) [
  | inl e ↦ rw e (h bytes)
  | inr e ↦ rw e (nothing_sent (suc requests) frame_error)
]
received no_frame_in_time requests answer h = (omega arith, tt)
received end_of_stream requests answer h = (omega arith, tt)
received unreadable requests answer h = (omega arith, tt)

IsSendable-of_tests :
    (response : Bytes)
    → is_sendable response ≡ true
    → fits_frame response ≡ true
    → IsSendable response
unfolding is_sendable fits_frame
IsSendable-of_tests response h k = ground arith

delivered-IsFramed :
    (delivery : Delivery) (response : Bytes) (rest : List Bytes × Ending) (requests : ℕ)
    → IsSendable response
    → IsFramed requests rest
    → IsFramed (suc requests) (delivered_as delivery response rest)
delivered-IsFramed delivered response rest requests fits (few, fit) =
    (omega (arith, few), (fits, fit))
delivered-IsFramed _ response rest requests fits h = (omega arith, tt)

sent-IsFramed :
    (delivery : Delivery) (response : Bytes) (rest : List Bytes × Ending) (requests : ℕ)
    → is_sendable response ≡ true
    → IsFramed requests rest
    → IsFramed (suc requests) (sent delivery response rest)
unfolding sent
sent-IsFramed delivery response rest requests e h = elim (Bool-cases (fits_frame response)) [
  | inl k ↦
      rw k (delivered-IsFramed delivery response rest requests (IsSendable-of_tests response e k) h)
  | inr k ↦ rw k (nothing_sent (suc requests) response_error)
]

answered-IsFramed :
    (delivery : Delivery) (response : Bytes) (rest : List Bytes × Ending) (requests : ℕ)
    → IsFramed requests rest
    → IsFramed
        (suc requests)
        (if is_sendable response then sent delivery response rest else ([], invalid_length))
answered-IsFramed delivery response rest requests h = elim (Bool-cases (is_sendable response)) [
  | inl e ↦ rw e (sent-IsFramed delivery response rest requests e h)
  | inr e ↦ rw e (nothing_sent (suc requests) invalid_length)
]

module _ (wire : Wire) (codecs : Codecs) (state : AppState) where
  -- A connection is sent at most as many responses as it may make requests, each of between 1 and 20480
  -- bytes: the limit that the codec has for requests holds for responses too.
  pub serve_connection-IsSendable :
      (requests : ℕ) (exchanges : List Exchange) (w : World)
      → let responses = (serve_connection wire codecs state requests exchanges w).0 in
        (length responses ≤ requests) × All IsSendable responses
  unfolding serve_connection
  serve_connection-IsSendable zero exchanges w = (omega arith, tt)
  serve_connection-IsSendable (suc requests) [] w = (omega arith, tt)
  serve_connection-IsSendable (suc requests) (x ∷ exchanges) w =
      received x.incoming requests _ λ bytes.
        let u = (execute wire codecs state x.seconds bytes w).1 in
        answered-IsFramed x.delivery (execute wire codecs state x.seconds bytes w).0
          (serve_connection wire codecs state requests exchanges u) requests
          (serve_connection-IsSendable requests exchanges u)
