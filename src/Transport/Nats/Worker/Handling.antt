-- ===== src/Transport/Nats/Worker/Handling.antt =====
-- The calls that the handling of one message makes.
use apme_api.Prelude.{
  ◌≤◌, ◌≡◌, refl, ◌≢◌, ◌↔◌, inl, inr, true, false, none, some, List, [], ◌∷◌, Result, ok, err,
  arith, Bool-cases, Option-cases, length, leb, ltb,
}
use apme_api.Text.{str_eq}
use apme_api.Text.Laws.{str_eq_iff}
use apme_api.Domain.{Uuid, Bytes}
use apme_api.Transport.Nats.Worker.{
  Wire, StatusRequest, decode_signal, max_signal_bytes, request_schema, response_to,
  max_response_bytes, Publication, publication_of, Call, terminate, acknowledge, publish, Fate,
  HandleError, seen, answer, handle, not_stored, not_terminated, not_acknowledged,
}

-- A signal: at most 4096 bytes that read as a request of the current schema.
pub record IsSignal (wire : Wire) (payload : Bytes) (operation_id : Uuid) : Type 0 where
  pub request : StatusRequest
  pub bounded : length payload ≤ max_signal_bytes
  pub parsed : wire.from_slice payload ≡ some request
  pub current : request.schema ≡ request_schema
  pub named : request.operation_id ≡ operation_id

-- A payload is decoded exactly where it is a signal, to the operation that it names.
pub decode_signal_iff :
    (wire : Wire) (payload : Bytes) (operation_id : Uuid)
    → (decode_signal wire payload ≡ some operation_id) ↔ IsSignal wire payload operation_id
unfolding decode_signal
decode_signal_iff wire payload operation_id = (
  λ h. elim (Bool-cases (ltb max_signal_bytes (length payload))) [
    | inl e ↦ cc (rw e at h)
    | inr e ↦ elim (Option-cases (wire.from_slice payload)) [
      | inl q ↦ cc (rw (e, q) at h)
      | inr (signal, q) ↦ elim (Bool-cases (str_eq signal.schema request_schema)) [
        | inl s ↦ record {
          request = signal;
          bounded = ground arith;
          parsed = q;
          current = (str_eq_iff _ _).0 s;
          named = ground arith;
        }
        | inr s ↦ cc (rw (e, q, s) at h)
      ]
    ]
  ],
  λ s. ground (arith, s.bounded, s.parsed, (str_eq_iff _ _).1 s.current, s.named),
)

-- The response that answers an operation: its encoding, within 65536 bytes, under its own id.
abbrev pub Answers : Wire → Uuid → Publication → Type 0
Answers wire operation_id publication =
    (payload : Bytes) × (wire.to_vec (response_to operation_id) ≡ some payload)
    × (length payload ≤ max_response_bytes)
    × (publication ≡ publication_of wire operation_id payload)

-- The four courses that the handling of a message can take: a payload that is no signal is terminated,
-- a response that cannot be made calls nothing, one that is not seen to be stored is not
-- acknowledged, and one that is seen to be stored is acknowledged next.
pub data Handled (wire : Wire) (payload : Bytes) (fate : Fate) (calls : List Call)
    (result : Result HandleError (Unit {0})) : Type 0 where
  rejected :
      decode_signal wire payload ≡ none
      → calls ≡ terminate ∷ []
      → result ≡ seen (fate terminate) not_terminated
      → Handled wire payload fate calls result
  unanswerable :
      (operation_id : Uuid)
      → decode_signal wire payload ≡ some operation_id
      → calls ≡ []
      → ((publication : Publication) → ¬ Answers wire operation_id publication)
      → result ≢ ok tt
      → Handled wire payload fate calls result
  unstored :
      (operation_id : Uuid) (publication : Publication)
      → decode_signal wire payload ≡ some operation_id
      → Answers wire operation_id publication
      → calls ≡ publish publication ∷ []
      → fate (publish publication) ≡ false
      → result ≡ err not_stored
      → Handled wire payload fate calls result
  answered :
      (operation_id : Uuid) (publication : Publication)
      → decode_signal wire payload ≡ some operation_id
      → Answers wire operation_id publication
      → calls ≡ publish publication ∷ acknowledge ∷ []
      → fate (publish publication) ≡ true
      → result ≡ seen (fate acknowledge) not_acknowledged
      → Handled wire payload fate calls result

-- The handling of every message takes one of these four courses.
pub handle-Handled :
    (wire : Wire) (payload : Bytes) (fate : Fate)
    → Handled wire payload fate (handle wire payload fate).0 (handle wire payload fate).1
unfolding handle answer
handle-Handled wire payload fate = elim (Option-cases (decode_signal wire payload)) [
  | inl e ↦ rejected e (rw e refl) (rw e refl)
  | inr (id, e) ↦ rw e (elim (Option-cases (wire.to_vec (response_to id))) [
    | inl q ↦ rw q (unanswerable id e refl (λ p (b, s, f, g). cc) (λ h. cc))
    | inr (body, q) ↦ rw q (elim (Bool-cases (leb (length body) max_response_bytes)) [
      | inr big ↦ rw big (unanswerable id e refl (λ p (b, s, f, g). ground arith) (λ h. cc))
      | inl fits ↦ rw fits (
          let p = publication_of wire id body in
          let answers : Answers wire id p = (body, q, ground arith, refl) in
          elim (Bool-cases (fate (publish p))) [
            | inl stored ↦ rw stored (answered id p e answers refl stored refl)
            | inr lost ↦ rw lost (unstored id p e answers refl lost refl)
          ])
    ])
  ])
]
