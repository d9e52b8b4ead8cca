-- ===== src/Transport/Nats/Queue/Drained.antt =====
-- The queue can always be emptied of the messages that may still be delivered.
use apme_api.Prelude.{ℕ, leb, Bool, true, List}
use apme_api.Transport.Nats.Worker.{Fate}
use apme_api.Transport.Nats.Queue.{Pending, Queue}

-- A broker that answers every call.
abbrev all_seen : Fate
all_seen call = true

-- A message that is not delivered any more.
abbrev pub is_spent : ℕ → Pending → Bool
is_spent limit m = leb limit m.deliveries
