-- ===== src/Transport/Nats/Queue.antt =====
-- The worker on a work queue that redelivers: whatever calls fail or lose their replies, no request is
-- forgotten. The queue is JetStream as it is documented: a message stays until it is acknowledged or
-- terminated, a call that is seen to succeed has taken effect, and a call that is not may have. A message
-- is delivered at most `max_deliver` times, and stays after that. A worker that has stopped is started
-- again.
pub mod Settled
pub mod Sound
pub mod Drained
use apme_api.Prelude.{
  ℕ, suc, ◌<◌, ◌≡◌, Bool, true, false, ◌||◌, List, [], ◌∷◌, ◌++◌, map, if◌then◌else◌,
}
use apme_api.Domain.{Uuid, Bytes}
use apme_api.Transport.Nats.Worker.{
  Wire, decode_signal, Publication, Call, terminate, acknowledge, publish, Fate, HandleError,
  handle,
}

-- A message on the stream, with the number of its deliveries so far.
pub record Pending : Type 0 where
  pub payload : Bytes
  pub deliveries : ℕ

-- The messages not yet settled, the responses stored, and all requests that ever arrived.
pub record Queue : Type 0 where
  pub pending : List Pending
  pub stored : List Publication
  pub arrived : List Bytes

-- What takes effect: a call that is seen to succeed, and any other as the network has it.
abbrev pub Effects : Type 0
Effects = Call → Bool

abbrev pub took_effect : Fate → Effects → Call → Bool
took_effect fate hidden call = fate call || hidden call

-- The publications that took effect.
unfoldable pub stored_by : (Call → Bool) → List Call → List Publication
stored_by effect [] = []
stored_by effect (publish p ∷ calls) =
    let rest = stored_by effect calls in if effect (publish p) then p ∷ rest else rest
stored_by effect (terminate ∷ calls) = stored_by effect calls
stored_by effect (acknowledge ∷ calls) = stored_by effect calls

-- Whether the message was settled.
unfoldable pub is_settled : (Call → Bool) → List Call → Bool
is_settled effect [] = false
is_settled effect (publish p ∷ calls) = is_settled effect calls
is_settled effect (terminate ∷ calls) = effect terminate || is_settled effect calls
is_settled effect (acknowledge ∷ calls) = effect acknowledge || is_settled effect calls

abbrev pub payloads : List Pending → List Bytes
payloads pending = map (λ m. m.payload) pending

-- The message after one more delivery.
abbrev pub again : Pending → Pending
again m = record m { deliveries = suc m.deliveries }

-- The queue after one delivery of the message that stands between `before` and `later`.
unfoldable pub deliver :
    Wire → Queue → List Pending → Pending → List Pending → Fate → Effects → Queue
deliver wire q before m later fate hidden = record q {
  pending =
      if is_settled (took_effect fate hidden) (handle wire m.payload fate).0
      then before ++ later
      else before ++ again m ∷ later;
  stored = q.stored ++ stored_by (took_effect fate hidden) (handle wire m.payload fate).0;
}

abbrev pub enqueue : Bytes → Queue → Queue
enqueue payload q = record q {
  pending = q.pending ++ record { payload = payload; deliveries = 0 } ∷ [];
  arrived = payload ∷ q.arrived;
}

-- `limit` is the consumer's `max_deliver`.
pub data Step (wire : Wire) (limit : ℕ) (q : Queue) : Queue → Type 0 where
  arrives : (payload : Bytes) → Step wire limit q (enqueue payload q)
  delivers :
      (before : List Pending) (m : Pending) (later : List Pending) (fate : Fate) (hidden : Effects)
      → q.pending ≡ before ++ m ∷ later
      → m.deliveries < limit
      → Step wire limit q (deliver wire q before m later fate hidden)

abbrev pub empty : Queue
empty = record { pending = []; stored = []; arrived = [] }

-- Any number of steps.
pub data Reach (wire : Wire) (limit : ℕ) (origin : Queue) : Queue → Type 0 where
  start : Reach wire limit origin origin
  next : {q r : Queue} → Reach wire limit origin q → Step wire limit q r → Reach wire limit origin r
