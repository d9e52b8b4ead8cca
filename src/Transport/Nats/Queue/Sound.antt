-- ===== src/Transport/Nats/Queue/Sound.antt =====
-- No request is forgotten, and no response is made up.
use apme_api.Prelude.{
  ℕ, ◌∙◌, ap, Bool, false, if◌then◌else◌, ◌≡◌, refl, ◌↔◌, ◌⊎◌, inl, inr, true, some, List, [], ◌∷◌,
  ◌++◌, Memᴰ, Bool-cases, mem_cases, mem-append,
}
use apme_api.Domain.{Uuid, Bytes}
use apme_api.Transport.Nats.Worker.{Wire, decode_signal, Publication, Fate, handle}
use apme_api.Transport.Nats.Worker.Handling.{Answers, handle-Handled}
use apme_api.Transport.Nats.Queue.{
  Pending, payloads, again, Queue, Effects, took_effect, is_settled, deliver, enqueue, Step,
  arrives, delivers, empty, Reach, start, next,
}
use apme_api.Transport.Nats.Queue.Settled.{
  IsDone, IsDone-append, IsDone-prepend, settled-IsDone, stored-Answers,
}

-- Every request that arrived is pending or dealt with, and every response answers a request that arrived.
pub record IsSound (wire : Wire) (q : Queue) : Type 0 where
  pub kept :
      (payload : Bytes)
      → Memᴰ payload q.arrived
      → Memᴰ payload (payloads q.pending) ⊎ IsDone wire q.stored payload
  pub pending_arrived :
      (payload : Bytes) → Memᴰ payload (payloads q.pending) → Memᴰ payload q.arrived
  pub warranted :
      (publication : Publication)
      → Memᴰ publication q.stored
      → (payload : Bytes) × (operation_id : Uuid) × Memᴰ payload q.arrived
        × (decode_signal wire payload ≡ some operation_id)
        × Answers wire operation_id publication

mem_middle :
    {A : Type 0} {x y : A} (before later : List A)
    → Memᴰ x (before ++ y ∷ later) ↔ ((x ≡ y) ⊎ Memᴰ x (before ++ later))
mem_middle [] later = (λ m. mem_cases m, elim [ inl e ↦ Memᴰ.head e | inr n ↦ Memᴰ.tail n ])
mem_middle (b ∷ before) later = (
  λ m. elim (mem_cases m) [
    | inl e ↦ inr (Memᴰ.head e)
    | inr n ↦ elim ((mem_middle before later).0 n) [ inl e ↦ inl e | inr k ↦ inr (Memᴰ.tail k) ]
  ],
  elim [
    | inl e ↦ Memᴰ.tail ((mem_middle before later).1 (inl e))
    | inr m ↦ elim (mem_cases m) [
      | inl e ↦ Memᴰ.head e
      | inr n ↦ Memᴰ.tail ((mem_middle before later).1 (inr n))
    ]
  ],
)

empty-IsSound : (wire : Wire) → IsSound wire empty
empty-IsSound wire = record {
  kept = λ payload m. elim m [ ];
  pending_arrived = λ payload m. elim m [ ];
  warranted = λ publication m. elim m [ ];
}

payloads-append : (xs ys : List Pending) → payloads (xs ++ ys) ≡ payloads xs ++ payloads ys
payloads-append [] ys = refl
payloads-append (x ∷ xs) ys = ap (λ l. x.payload ∷ l) (payloads-append xs ys)

enqueue-IsSound :
    (wire : Wire) (q : Queue) (payload : Bytes) → IsSound wire q → IsSound wire (enqueue payload q)
enqueue-IsSound wire q payload s =
    let grown = payloads-append q.pending (record { payload = payload; deliveries = 0 } ∷ []) in
    record {
      kept = λ other m. elim (mem_cases m) [
        | inl e ↦
            inl (rw grown ((mem-append (payloads q.pending) (payload ∷ [])).1 (inr (Memᴰ.head e))))
        | inr n ↦ elim (s.kept other n) [
          | inl k ↦ inl (rw grown ((mem-append (payloads q.pending) (payload ∷ [])).1 (inl k)))
          | inr d ↦ inr d
        ]
      ];
      pending_arrived = λ other m.
          elim ((mem-append (payloads q.pending) (payload ∷ [])).0 (rw grown at m)) [
            | inl n ↦ Memᴰ.tail (s.pending_arrived other n)
            | inr n ↦ elim (mem_cases n) [ inl e ↦ Memᴰ.head e | inr k ↦ elim k [ ] ]
          ];
      warranted = λ publication m.
          let (other, id, arrived, e, a) = s.warranted publication m in
          (other, id, Memᴰ.tail arrived, e, a);
    }

module _ (wire : Wire) (q : Queue) (before : List Pending) (message : Pending)
    (later : List Pending) (fate : Fate) (hidden : Effects)
    (found : q.pending ≡ before ++ message ∷ later) (s : IsSound wire q) where
  -- The payloads before the delivery, and those that stay after it.
  listed : payloads q.pending ≡ payloads before ++ message.payload ∷ payloads later
  listed = ap payloads found ∙ payloads-append before (message ∷ later)

  staying :
      (settled : Bool)
      → payloads (if settled then before ++ later else before ++ again message ∷ later) ≡ (
          if settled
          then payloads before ++ payloads later
          else payloads before ++ message.payload ∷ payloads later)
  staying true = payloads-append before later
  staying false = payloads-append before (again message ∷ later)

  settled : Bool
  settled = is_settled (took_effect fate hidden) (handle wire message.payload fate).0

  pending_after :
      (other : Bytes)
      → Memᴰ other (payloads (deliver wire q before message later fate hidden).pending)
      → Memᴰ other (payloads q.pending)
  unfolding deliver settled
  pending_after other m =
      let n = rw (staying settled) at m in
      elim (Bool-cases settled) [
        | inl t ↦ rw listed ((mem_middle (payloads before) (payloads later)).1 (inr (rw t at n)))
        | inr t ↦ rw listed (rw t at n)
      ]

  kept_after :
      (other : Bytes)
      → Memᴰ other (payloads q.pending)
      → Memᴰ other (payloads (deliver wire q before message later fate hidden).pending)
        ⊎ IsDone wire (deliver wire q before message later fate hidden).stored other
  unfolding deliver settled
  kept_after other m = elim (Bool-cases settled) [
    | inl t ↦ elim ((mem_middle (payloads before) (payloads later)).0 (rw listed at m)) [
      | inl e ↦ inr (
          rw e (
            IsDone-prepend wire q.stored _ message.payload (
              settled-IsDone wire message.payload fate hidden _ _
                (handle-Handled wire message.payload fate) t)))
      | inr n ↦ inl (rw (staying settled) (rw t n))
    ]
    | inr t ↦ inl (rw (staying settled) (rw t (rw listed at m)))
  ]

  deliver-IsSound : IsSound wire (deliver wire q before message later fate hidden)
  unfolding deliver
  deliver-IsSound = record {
    kept = λ other m. elim (s.kept other m) [
      | inl p ↦ kept_after other p
      | inr d ↦ inr (IsDone-append wire q.stored _ other d)
    ];
    pending_arrived = λ other m. s.pending_arrived other (pending_after other m);
    warranted = λ publication m. elim ((mem-append q.stored _).0 m) [
      | inl n ↦ s.warranted publication n
      | inr n ↦
          let (id, e, a) =
            stored-Answers wire message.payload fate hidden _ _ publication
              (handle-Handled wire message.payload fate) n in
          (
            message.payload,
            id,
            s.pending_arrived message.payload
                (rw listed ((mem_middle (payloads before) (payloads later)).1 (inl refl))),
            e,
            a,
          )
    ];
  }

Step-IsSound :
    (wire : Wire) (limit : ℕ) {q r : Queue} → Step wire limit q r → IsSound wire q → IsSound wire r
Step-IsSound wire limit {q} (arrives payload) s = enqueue-IsSound wire q payload s
Step-IsSound wire limit {q} (delivers before message later fate hidden found more) s =
    deliver-IsSound wire q before message later fate hidden found s

pub IsSound-Reach :
    (wire : Wire) (limit : ℕ) {origin q : Queue}
    → IsSound wire origin
    → Reach wire limit origin q
    → IsSound wire q
IsSound-Reach wire limit s start = s
IsSound-Reach wire limit s (next r st) = Step-IsSound wire limit st (IsSound-Reach wire limit s r)

-- Whatever the limit on deliveries, in every state that arrivals and deliveries can reach, however calls
-- fail and replies are lost, each request that arrived is still pending or dealt with, and each response
-- stored answers a request that arrived.
pub Reach-IsSound :
    (wire : Wire) (limit : ℕ) {q : Queue} → Reach wire limit empty q → IsSound wire q
Reach-IsSound wire limit r = IsSound-Reach wire limit (empty-IsSound wire) r
