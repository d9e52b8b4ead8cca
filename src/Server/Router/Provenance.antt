-- ===== src/Server/Router/Provenance.antt =====
-- Where the texts of a socket come from.
use apme_api.Prelude.{
  ℕ, ◌≡◌, refl, ap, ◌++◌, ◌∙◌, ◌⊎◌, inl, inr, Bool, true, Option, some, List, [], ◌∷◌, Memᴰ,
  mem-append, All-mem, ok,
}
use apme_api.Text.{Str}
use apme_api.Domain.{VerifiedSubject, TenantContext, CaseSubscription, Interfaces}
use apme_api.Database.{TenantEvent, World}
use apme_api.Http.{HeaderMap, Codecs}
use apme_api.Auth.Session.{cases_read_scope}
use apme_api.Auth.Service.Outcomes.{IsAuthenticated}
use apme_api.Api.Access.{AppState}
use apme_api.Api.Access.Membership.{IsGranted}
use apme_api.Api.Handlers.{Clock}
use apme_api.Api.Sockets.{WebSocketQuery, websocket, Arrival, delivered, text, socket_loop}
use apme_api.Api.Sockets.Isolation.{IsSubscribed}
use apme_api.Api.Sockets.Handshake.{websocket-IsIsolated}
use apme_api.Server.Router.{Request, respond, respond_all}
use apme_api.Server.Router.Broadcast.{IsWarranted, announced, respond-IsAnnounced}

module _ (lib : Interfaces) (codecs : Codecs) (state : AppState) (version : Str) where
  -- One of the requests announced the event, and warrants it in the world that the requests before it
  -- have left, which is the one that it met.
  abbrev pub IsRequested : World → List (Clock × Request) → TenantEvent → Type 0
  IsRequested start requests event =
      (earlier : List (Clock × Request)) × (clock : Clock) × (request : Request) × (later : List
        (Clock × Request))
      × (requests ≡ earlier ++ (clock, request) ∷ later)
      × (let met = respond_all lib codecs state version earlier start in
          Memᴰ event (announced (respond lib codecs state version clock request met).0)
          × IsWarranted codecs state clock.seconds request.headers met event)

  respond_all-IsRequested :
      (requests : List (Clock × Request)) (w : World) (event : TenantEvent)
      → Memᴰ event (respond_all lib codecs state version requests w).published
      → Memᴰ event w.published ⊎ IsRequested w requests event
  unfolding respond_all
  respond_all-IsRequested [] w event m = inl m
  respond_all-IsRequested ((clock, request) ∷ later) w event m =
      let after = respond lib codecs state version clock request w in
      let (appended, warranted) = respond-IsAnnounced lib codecs state version clock request w in
      elim (respond_all-IsRequested later after.1 event m) [
        | inl before ↦
            elim ((mem-append w.published (announced after.0)).0 (rw appended at before)) [
              | inl old ↦ inl old
              | inr new ↦ inr (
                [],
                clock,
                request,
                later,
                refl,
                (new, All-mem _ (announced after.0) warranted new),
              )
            ]
        | inr (earlier, c, r, rest, split, warrant) ↦
            inr (
              (clock, request) ∷ earlier,
              c,
              r,
              rest,
              ap (λ l. (clock, request) ∷ l) split,
              warrant,
            )
      ]

  -- Where a socket is upgraded, and every event that its receiver delivers was published in the
  -- course of the requests, beginning with an empty channel: each text that the socket is sent
  -- renders an event that one of the requests announced. The writer was authenticated with the write
  -- scope and, in the world that the requests before had left, a member of the tenant that the
  -- socket's query names; so is its reader, with the read scope, in the world that the upgrade met;
  -- where the query names a case, the event is of that case.
  pub socket_texts-IsRequested :
      (requests : List (Clock × Request)) (query : WebSocketQuery) (headers : HeaderMap) (now : ℕ)
      (render : TenantEvent → Option Str) (arrivals : List (Arrival × Bool)) (start w w' : World)
      (subscription : CaseSubscription) (body : Str)
      → start.published ≡ []
      → websocket codecs state query headers now w ≡ (ok subscription, w')
      → ((event : TenantEvent)
          → Memᴰ (delivered event, true) arrivals
          → Memᴰ event (respond_all lib codecs state version requests start).published)
      → Memᴰ (text body) (socket_loop render subscription arrivals).0
      → (event : TenantEvent) × (reader : VerifiedSubject) × (context : TenantContext) × IsRequested
          start requests event
        × IsAuthenticated codecs state.auth headers (cases_read_scope ∷ []) now reader
        × IsGranted reader w context
        × (context.tenant_id ≡ query.tenant_id)
        × IsSubscribed (record { tenant_id = query.tenant_id; case_id = query.case_id }) event
        × (render event ≡ some body)
  socket_texts-IsRequested requests query headers now render arrivals start w w' subscription body
        fresh upgraded broadcast sent =
      let (reader, context, event, authentic, same, member, listed, subscribed, rendered) =
        websocket-IsIsolated codecs state query headers now render arrivals w w' subscription body
          upgraded sent in
      let requested : IsRequested start requests event =
        elim (respond_all-IsRequested requests start event (broadcast event listed)) [
          | inl old ↦ absurd (elim (rw fresh at old) [ ])
          | inr new ↦ new
        ] in
      (
        event,
        reader,
        context,
        requested,
        authentic,
        member,
        same,
        (subscribed.0 ∙ same, subscribed.1),
        rendered,
      )
