-- ===== src/Server/Router/Invariants.antt =====
-- What holds of the tables is kept by every request for a tenant whose procedures keep it.
use apme_api.Prelude.{ℕ, ◌≡◌, Option, none, some, bind_some, to_option, Result, ok, err}
use mathlib.Core.Path.{subst}
use apme_api.Text.{Str}
use apme_api.Domain.{Uuid, Interfaces}
use apme_api.Database.{Tables, World, Action, continue, lift, finish, raise_as}
use apme_api.Database.Invariants.{IsSteady, IsKept, continue-IsKept, read-IsKept}
use apme_api.Http.{HeaderMap, Codecs}
use apme_api.Cases.Invariants.{IsKeeping, tenant_context-IsKept}
use apme_api.Api.Errors.{ApiError}
use apme_api.Api.Access.{AppState}
use apme_api.Api.Handlers.{Clock}
use apme_api.Api.Handlers.Invariants as Handling
use apme_api.Api.Sockets.{WebSocketQuery, websocket}
use apme_api.Server.Pages.{metrics}
use apme_api.Server.Router.{
  Endpoint, index_page, health_page, metrics_page, cases_list, case_get, case_create,
  case_transition, case_rotate_object, websocket_upgrade, Request, Answer, mutation_json, Failure,
  api, answered, extract, endpoint_answer, matched, routed, find_route, routes, respond,
}
use apme_api.Server.Router.Tenancy.{endpoint_tenant, request_tenant}

-- The tenant of a request, where it has one, is one of `T`.
abbrev pub IsOf : (Uuid → Type 0) → Option Uuid → Type 0
IsOf T none = Unit
IsOf T (some tenant) = T tenant

own_of :
    (r : Result ApiError Uuid) (T : Uuid → Type 0)
    → IsOf T (to_option r)
    → (t : Uuid) → r ≡ ok t
    → T t
own_of (ok a) T h t e = let same : a ≡ t = cc in subst (λ u. T u) same h
own_of (err a) T h t e = cc

module _ (K : Tables → Type 0) (lib : Interfaces) (codecs : Codecs) (state : AppState)
    (T : Uuid → Type 0) (keeps : IsKeeping K T state.cases.pool) (version : Str)
    (clock : Clock) where
  extract-IsKept :
      {A : Type 0} (r : Result ℕ A) (f : A → Action Failure Answer) (w : World)
      → K w.tables
      → IsSteady K w.schedule
      → ((a : A) → IsKept K (f a w))
      → IsKept K (continue (extract r w) f)
  unfolding continue lift
  extract-IsKept (ok a) f w e h k = k a
  extract-IsKept (err status) f w e h k = (e, h)

  handled-IsKept :
      {A : Type 0} (m : Action ApiError A) (f : A → Answer) (w : World)
      → IsKept K (m w)
      → IsKept K (continue (raise_as api m w) (λ a. finish (f a)))
  unfolding raise_as finish
  handled-IsKept m f w h = continue-IsKept K _ _ h λ a u p e1 h1. (e1, h1)

  metrics-IsKept : (w : World) → K w.tables → IsSteady K w.schedule → IsKept K (metrics w)
  unfolding metrics raise_as finish
  metrics-IsKept w e h = continue-IsKept K _ _ (read-IsKept K _ w e h) λ count u p e1 h1. (e1, h1)

  websocket-IsKept :
      (query : WebSocketQuery) (headers : HeaderMap) (w : World)
      → K w.tables
      → IsSteady K w.schedule
      → IsKept K (websocket codecs state query headers clock.seconds w)
  unfolding websocket lift raise_as finish
  websocket-IsKept query headers w e h =
      continue-IsKept K _ _ (e, h)
        λ subject u p e1 h1.
          continue-IsKept K _ _ (tenant_context-IsKept K subject query.tenant_id u e1 h1)
            λ context u1 p1 e2 h2. (e2, h2)

  endpoint-IsKept :
      (endpoint : Endpoint) (request : Request) (w : World)
      → IsOf T (endpoint_tenant codecs endpoint request)
      → K w.tables
      → IsSteady K w.schedule
      → IsKept K (endpoint_answer lib codecs state version clock endpoint request w)
  unfolding endpoint_answer finish
  endpoint-IsKept index_page request w o e h = (e, h)
  endpoint-IsKept health_page request w o e h = (e, h)
  endpoint-IsKept metrics_page request w o e h = handled-IsKept _ _ w (metrics-IsKept w e h)
  endpoint-IsKept cases_list request w o e h = handled-IsKept _ _ w (
      Handling.list_cases-IsKept K lib codecs state T keeps clock request.headers (own_of _ T o) w e
        h)
  endpoint-IsKept case_get request w o e h = extract-IsKept request.path_id _ w e h λ id.
      handled-IsKept _ _ w (
        Handling.get_case-IsKept K lib codecs state T keeps clock request.headers (own_of _ T o) w e
          h id)
  endpoint-IsKept case_create request w o e h =
      extract-IsKept request.create_body _ w e h λ command.
        handled-IsKept _ (λ made. mutation_json made.0 made.1) w
          (Handling.create_case-IsKept K lib codecs state T keeps clock request.headers
            (own_of _ T o) w e h command)
  endpoint-IsKept case_transition request w o e h = extract-IsKept request.path_id _ w e h λ id.
      extract-IsKept request.transition_body _ w e h λ command. handled-IsKept _ _ w (
        Handling.transition_case-IsKept K lib codecs state T keeps clock request.headers
          (own_of _ T o) w e h id command)
  endpoint-IsKept case_rotate_object request w o e h = extract-IsKept request.path_id _ w e h λ id.
      extract-IsKept request.rotate_body _ w e h λ command. handled-IsKept _ _ w (
        Handling.rotate_encrypted_object-IsKept K lib codecs state T keeps clock request.headers
          (own_of _ T o) w e h id command)
  endpoint-IsKept websocket_upgrade request w o e h =
      extract-IsKept request.upgrade _ w e h λ upgrade.
        extract-IsKept request.query _ w e h
          λ query. handled-IsKept _ _ w (websocket-IsKept query request.headers w e h)

  answered-IsKept :
      (p : Result Failure Answer × World)
      → IsKept K p
      → K (answered p).1.tables × IsSteady K (answered p).1.schedule
  answered-IsKept (ok a, w) h = h
  answered-IsKept (err a, w) h = h

  routed-IsKept :
      (found : Option Endpoint) (request : Request) (w : World)
      → IsOf T (bind_some found (λ endpoint. endpoint_tenant codecs endpoint request))
      → K w.tables
      → IsSteady K w.schedule
      → let after = (routed lib codecs state version clock found request w).1 in
        K after.tables × IsSteady K after.schedule
  routed-IsKept none request w o e h = (e, h)
  routed-IsKept (some endpoint) request w o e h =
      answered-IsKept _ (endpoint-IsKept endpoint request w o e h)

  matched-IsKept :
      (path : Option Str) (request : Request) (w : World)
      → IsOf T (
          bind_some path (λ p.
            bind_some
              (find_route p request.method routes)
              λ endpoint. endpoint_tenant codecs endpoint request))
      → K w.tables
      → IsSteady K w.schedule
      → let after = (matched lib codecs state version clock path request w).1 in
        K after.tables × IsSteady K after.schedule
  matched-IsKept none request w o e h = (e, h)
  matched-IsKept (some path) request w o e h =
      routed-IsKept (find_route path request.method routes) request w o e h

  -- What holds of the tables before a request holds after it, whatever it is, if the procedures keep it
  -- for the tenant that the request is for, and so does what others do meanwhile.
  pub respond-IsKept :
      (request : Request) (w : World)
      → IsOf T (request_tenant codecs request)
      → K w.tables
      → IsSteady K w.schedule
      → let after = (respond lib codecs state version clock request w).1 in
        K after.tables × IsSteady K after.schedule
  unfolding respond
  respond-IsKept request w o e h = matched-IsKept request.matched_path request w o e h
