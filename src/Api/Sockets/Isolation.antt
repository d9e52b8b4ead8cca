-- ===== src/Api/Sockets/Isolation.antt =====
-- What a socket is sent.
use apme_api.Prelude.{
  ◌≡◌, refl, sym, ap, ◌↔◌, ◌⊎◌, inl, inr, Bool, true, false, Option, some, List, [], ◌∷◌, Memᴰ,
  arith, Bool-cases, Option-cases, mem_cases,
}
use apme_api.Text.{Str}
use apme_api.Domain.{Uuid, CaseSubscription}
use apme_api.Database.{TenantEvent}
use apme_api.Api.Sockets.{
  subscription_allows, Arrival, delivered, lagged, Message, text, Reaction, send, ignore, stop,
  react, proceed, socket_loop,
}

-- An event is of the subscription's tenant and, where it names a case, of that case.
abbrev pub IsSubscribed : CaseSubscription → TenantEvent → Type 0
IsSubscribed subscription event =
    (event.tenant_id ≡ subscription.tenant_id)
    × ((case_id : Uuid) → subscription.case_id ≡ some case_id → event.case_id ≡ case_id)

pub subscription_allows_iff :
    (subscription : CaseSubscription) (event : TenantEvent)
    → (subscription_allows subscription event ≡ true) ↔ IsSubscribed subscription event
unfolding subscription_allows
subscription_allows_iff s event = elim (Option-cases s.case_id) [
  | inl e ↦ (λ h. (ground arith, λ c q. cc), λ (t, f). ground arith)
  | inr (c, e) ↦ (λ h. (ground arith, λ d q. ground arith), λ (t, f). ground (arith, f c e))
]

module _ (render : TenantEvent → Option Str) (subscription : CaseSubscription) where
  text_sound :
      (arrival : Arrival) (body : Str)
      → react render subscription arrival ≡ send (text body)
      → (event : TenantEvent) × (arrival ≡ delivered event)
        × IsSubscribed subscription event
        × (render event ≡ some body)
  unfolding react
  text_sound (delivered event) body h = elim (Bool-cases (subscription_allows subscription event)) [
    | inl e ↦ elim (Option-cases (render event)) [
      | inl q ↦ ground arith
      | inr (b, q) ↦ (event, refl, (subscription_allows_iff subscription event).0 e, ground arith)
    ]
    | inr e ↦ ground arith
  ]
  text_sound (lagged n) body h = cc
  text_sound _ body h = cc

  first_or_later :
      (reaction : Reaction) (sends : Bool) (rest : List Message × Bool) (message : Message)
      → Memᴰ message (proceed reaction sends rest).0
      → ((reaction ≡ send message) × (sends ≡ true)) ⊎ Memᴰ message rest.0
  first_or_later stop sends rest message m = elim m [ ]
  first_or_later ignore sends rest message m = inr m
  first_or_later (send other) true rest message m = elim (mem_cases m) [
    | inl e ↦ inl (ap send (sym e), refl)
    | inr n ↦ inr n
  ]
  first_or_later (send other) false rest message m = elim m [ ]

  -- Every text that a socket is sent renders an event that was delivered to it, of the tenant and,
  -- where the subscription names one, of the case that it subscribed to.
  pub socket_loop-IsSubscribed :
      (arrivals : List (Arrival × Bool)) (body : Str)
      → Memᴰ (text body) (socket_loop render subscription arrivals).0
      → (event : TenantEvent) × Memᴰ (delivered event, true) arrivals
        × IsSubscribed subscription event
        × (render event ≡ some body)
  unfolding socket_loop
  socket_loop-IsSubscribed [] body m = elim m [ ]
  socket_loop-IsSubscribed ((arrival, sends) ∷ later) body m =
      elim (first_or_later (react render subscription arrival) sends
        (socket_loop render subscription later) (text body) m) [
          | inl (e, sent) ↦
              let (event, from, subscribed, rendered) = text_sound arrival body e in
              (event, Memᴰ.head (cc (from, sent)), subscribed, rendered)
          | inr n ↦
              let (event, listed, subscribed, rendered) = socket_loop-IsSubscribed later body n in
              (event, Memᴰ.tail listed, subscribed, rendered)
        ]
