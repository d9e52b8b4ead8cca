-- ===== src/Api/Sockets/Handshake.antt =====
-- Whose events reach the peer of a socket.
use apme_api.Prelude.{
  ℕ, ◌≡◌, sym, ap, ◌∙◌, Bool, true, Option, some, List, [], ◌∷◌, Memᴰ, ok, map_err-eq-ok,
}
use apme_api.Text.{Str}
use apme_api.Domain.{VerifiedSubject, TenantContext, CaseSubscription}
use apme_api.Database.{TenantEvent, World}
use apme_api.Database.Frames.{continue-eq-ok, finish-eq-ok, raise_as-eq-ok, lift-then-eq-ok}
use apme_api.Http.{HeaderMap, Codecs}
use apme_api.Auth.Session.{cases_read_scope}
use apme_api.Auth.Service.{authenticate}
use apme_api.Auth.Service.Outcomes.{IsAuthenticated, authenticate_with_scopes_iff}
use apme_api.Api.Errors.{authentication, cases}
use apme_api.Api.Access.{AppState}
use apme_api.Api.Access.Membership.{IsGranted, granted}
use apme_api.Api.Sockets.{WebSocketQuery, websocket, Arrival, delivered, text, socket_loop}
use apme_api.Api.Sockets.Isolation.{IsSubscribed, socket_loop-IsSubscribed}

module _ (codecs : Codecs) (state : AppState) (query : WebSocketQuery) (headers : HeaderMap)
    (now : ℕ) where
  handshake :
      (w w' : World) (subscription : CaseSubscription)
      → websocket codecs state query headers now w ≡ (ok subscription, w')
      → (subject : VerifiedSubject) × (context : TenantContext) × IsAuthenticated codecs state.auth
          headers
          (cases_read_scope ∷ [])
          now
          subject
        × (context.tenant_id ≡ query.tenant_id)
        × IsGranted subject w context
        × (subscription.tenant_id ≡ query.tenant_id)
        × (subscription.case_id ≡ query.case_id)
  unfolding websocket authenticate
  handshake w w' subscription h =
      let (subject, checked, h1) = lift-then-eq-ok _ _ w h in
      let (context, u, found, h2) = continue-eq-ok _ _ h1 in
      let made = (finish-eq-ok _ u h2).0 in
      let (same, grant) =
        granted subject query.tenant_id w u context (raise_as-eq-ok cases _ w found) in
      (
        subject,
        context,
        (authenticate_with_scopes_iff codecs state.auth headers (cases_read_scope ∷ []) now
              subject).0
            (map_err-eq-ok authentication _ checked),
        same,
        grant,
        ap (λ (s : CaseSubscription). s.tenant_id) (sym made),
        ap (λ (s : CaseSubscription). s.case_id) (sym made),
      )

  -- A socket that is upgraded belongs to a subject authenticated with the read scope and a member of
  -- the tenant that the query names; every text it is ever sent renders an event that was delivered
  -- to it, of that tenant and, where the query names a case, of that case.
  pub websocket-IsIsolated :
      (render : TenantEvent → Option Str) (arrivals : List (Arrival × Bool)) (w w' : World)
      (subscription : CaseSubscription) (body : Str)
      → websocket codecs state query headers now w ≡ (ok subscription, w')
      → Memᴰ (text body) (socket_loop render subscription arrivals).0
      → (subject : VerifiedSubject) × (context : TenantContext) × (event : TenantEvent)
        × IsAuthenticated codecs state.auth headers (cases_read_scope ∷ []) now subject
        × (context.tenant_id ≡ query.tenant_id)
        × IsGranted subject w context
        × Memᴰ (delivered event, true) arrivals
        × IsSubscribed (record { tenant_id = context.tenant_id; case_id = query.case_id }) event
        × (render event ≡ some body)
  websocket-IsIsolated render arrivals w w' subscription body h m =
      let (subject, context, authentic, same, grant, tenant, case) =
        handshake w w' subscription h in
      let (event, from, subscribed, rendered) =
        socket_loop-IsSubscribed render subscription arrivals body m in
      let (own, named) = subscribed in
      (
        subject,
        context,
        event,
        authentic,
        same,
        grant,
        from,
        (own ∙ tenant ∙ sym same, λ c e. named c (case ∙ e)),
        rendered,
      )
