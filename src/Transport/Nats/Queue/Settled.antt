-- ===== src/Transport/Nats/Queue/Settled.antt =====
-- What the handling of one message leaves behind.
use apme_api.Prelude.{
  Bool, ◌≡◌, refl, ◌⊎◌, inl, inr, true, none, some, List, [], ◌∷◌, ◌++◌, Memᴰ, Result, Bool-cases,
  mem_cases, mem-append,
}
use apme_api.Domain.{Uuid, Bytes}
use apme_api.Transport.Nats.Worker.{
  Wire, decode_signal, Publication, Call, acknowledge, publish, Fate, HandleError,
}
use apme_api.Transport.Nats.Worker.Handling.{
  Answers, Handled, rejected, unanswerable, unstored, answered,
}
use apme_api.Transport.Nats.Queue.{Effects, took_effect, stored_by, is_settled}

-- A request is dealt with: it is no signal, or a response to its operation is stored.
abbrev pub IsDone : Wire → List Publication → Bytes → Type 0
IsDone wire stored payload =
    (decode_signal wire payload ≡ none)
    ⊎ ((operation_id : Uuid) × (publication : Publication) × (decode_signal wire payload
          ≡ some operation_id)
        × Answers wire operation_id publication
        × Memᴰ publication stored)

pub IsDone-append :
    (wire : Wire) (stored more : List Publication) (payload : Bytes)
    → IsDone wire stored payload
    → IsDone wire (stored ++ more) payload
IsDone-append wire stored more payload (inl e) = inl e
IsDone-append wire stored more payload (inr (id, p, e, a, m)) =
    inr (id, p, e, a, (mem-append stored more).1 (inl m))

pub IsDone-prepend :
    (wire : Wire) (stored more : List Publication) (payload : Bytes)
    → IsDone wire more payload
    → IsDone wire (stored ++ more) payload
IsDone-prepend wire stored more payload (inl e) = inl e
IsDone-prepend wire stored more payload (inr (id, p, e, a, m)) =
    inr (id, p, e, a, (mem-append stored more).1 (inr m))

stored_head :
    (effect : Call → Bool) (p q : Publication) (calls : List Call)
    → stored_by effect calls ≡ []
    → Memᴰ q (stored_by effect (publish p ∷ calls))
    → q ≡ p
unfolding stored_by
stored_head effect p q calls e m = elim (Bool-cases (effect (publish p))) [
  | inl t ↦ elim (mem_cases (rw (t, e) at m)) [ inl same ↦ same | inr n ↦ elim n [ ] ]
  | inr t ↦ elim (rw (t, e) at m) [ ]
]

module _ (wire : Wire) (payload : Bytes) (fate : Fate) (hidden : Effects) where
  -- A message that is settled is dealt with.
  pub settled-IsDone :
      (calls : List Call) (result : Result HandleError (Unit {0}))
      → Handled wire payload fate calls result
      → is_settled (took_effect fate hidden) calls ≡ true
      → IsDone wire (stored_by (took_effect fate hidden) calls) payload
  unfolding is_settled stored_by
  settled-IsDone calls result (rejected e c r) h = inl e
  settled-IsDone calls result (unanswerable id e c n r) h = cc (rw c at h)
  settled-IsDone calls result (unstored id p e a c f r) h = cc (rw c at h)
  settled-IsDone calls result (answered id p e a c f r) h =
      inr (id, p, e, a, rw (c, f) (Memᴰ.head refl))

  pub stored-Answers :
      (calls : List Call) (result : Result HandleError (Unit {0})) (publication : Publication)
      → Handled wire payload fate calls result
      → Memᴰ publication (stored_by (took_effect fate hidden) calls)
      → (operation_id : Uuid) × (decode_signal wire payload ≡ some operation_id)
        × Answers wire operation_id publication
  unfolding stored_by
  stored-Answers calls result publication (rejected e c r) m = elim (rw c at m) [ ]
  stored-Answers calls result publication (unanswerable id e c n r) m = elim (rw c at m) [ ]
  stored-Answers calls result publication (unstored id p e a c f r) m =
      rw (stored_head (took_effect fate hidden) p publication [] refl (rw c at m)) (id, e, a)
  stored-Answers calls result publication (answered id p e a c f r) m =
      rw (stored_head (took_effect fate hidden) p publication (acknowledge ∷ []) refl (rw c at m))
        (id, e, a)
