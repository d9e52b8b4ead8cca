-- ===== src/Server/Router/Tenancy.antt =====
-- The tenant that a request is for, and how far its answer and its effect reach.
use mathlib.Core.Option
use mathlib.Core.Path.{subst}
use apme_api.Prelude.{
  ℕ, ◌≡◌, refl, sym, ap, Option, none, some, bind_some, to_option, Result, ok, err, arith,
}
use apme_api.Text.{Str}
use apme_api.Domain.{Uuid, Bytes, Interfaces}
use apme_api.Database.{World, Action, continue, lift, finish, raise_as}
use apme_api.Database.Views.{
  Agree, IsAlike, continue-IsAlike, lift-IsAlike, finish-IsAlike, raise_as-IsAlike,
}
use apme_api.Http.{HeaderMap, Codecs}
use apme_api.Cases.Tenancy.{IsPartitioned}
use apme_api.Cases.Lookup.{tenant_context}
use apme_api.Cases.Tenancy.Alike.{tenant_context-IsAlike}
use apme_api.Api.Errors.{ApiError, cases}
use apme_api.Api.Access.{AppState, tenant_id}
use apme_api.Api.Handlers.{Clock}
use apme_api.Api.Handlers.Alike
use apme_api.Api.Sockets.{WebSocketQuery, websocket}
use apme_api.Server.Router.{
  Endpoint, index_page, health_page, metrics_page, cases_list, case_get, case_create,
  case_transition, case_rotate_object, websocket_upgrade, Request, Answer, mutation_json, Failure,
  api, failed, answered, extract, endpoint_answer, matched, routed, find_route, routes, respond,
}

-- The socket's tenant stands in the query, that of a case in the header. A page has none.
abbrev pub endpoint_tenant : Codecs → Endpoint → Request → Option Uuid
endpoint_tenant codecs index_page request = none
endpoint_tenant codecs health_page request = none
endpoint_tenant codecs metrics_page request = none
endpoint_tenant codecs websocket_upgrade request =
    Option.map (λ q. q.tenant_id) (to_option request.query)
endpoint_tenant codecs _ request = to_option (tenant_id codecs request.headers)

abbrev pub request_tenant : Codecs → Request → Option Uuid
request_tenant codecs request = bind_some request.matched_path λ path.
    bind_some (find_route path request.method routes)
      λ endpoint. endpoint_tenant codecs endpoint request

own_of :
    (r : Result ApiError Uuid) (tenant : Uuid)
    → to_option r ≡ some tenant
    → (t : Uuid) → r ≡ ok t
    → t ≡ tenant
own_of (ok a) tenant h t e = cc
own_of (err a) tenant h t e = cc

own_query :
    (r : Result ℕ WebSocketQuery) (query : WebSocketQuery) (tenant : Uuid)
    → Option.map (λ (q : WebSocketQuery). q.tenant_id) (to_option r) ≡ some tenant
    → r ≡ ok query
    → query.tenant_id ≡ tenant
own_query (ok q) query tenant h e = ground arith
own_query (err status) query tenant h e = cc

module _ (part : Uuid → Bytes → Bytes) (tenant : Uuid) (lib : Interfaces) (codecs : Codecs)
    (state : AppState) (apart : IsPartitioned part state.cases.pool tenant) (version : Str)
    (clock : Clock) where
  extract-IsAlike :
      {A : Type 0} (r : Result ℕ A) (f : A → Action Failure Answer) (w v : World)
      → Agree part tenant w v
      → ((a : A) → r ≡ ok a → IsAlike part tenant (f a w) (f a v))
      → IsAlike part tenant (continue (extract r w) f) (continue (extract r v) f)
  unfolding continue lift
  extract-IsAlike (ok a) f w v h k = k a refl
  extract-IsAlike (err status) f w v h k = (refl, h)

  handled-IsAlike :
      {A : Type 0} (m : Action ApiError A) (f : A → Answer) (w v : World)
      → IsAlike part tenant (m w) (m v)
      → IsAlike part tenant
          (continue (raise_as api m w) (λ a. finish (f a)))
          (continue (raise_as api m v) (λ a. finish (f a)))
  handled-IsAlike m f w v h =
      continue-IsAlike part tenant _ _ _ (raise_as-IsAlike part tenant api m m w v h)
        λ a u u' p k. finish-IsAlike part tenant Failure (f a) u u' k

  websocket-IsAlike :
      (query : WebSocketQuery) (headers : HeaderMap) (w v : World)
      → query.tenant_id ≡ tenant
      → Agree part tenant w v
      → IsAlike part tenant
          (websocket codecs state query headers clock.seconds w)
          (websocket codecs state query headers clock.seconds v)
  unfolding websocket
  websocket-IsAlike query headers w v same h =
      continue-IsAlike part tenant _ _ _ (lift-IsAlike part tenant _ w v h) λ subject u u' p k.
        continue-IsAlike part tenant _ _ _
          (raise_as-IsAlike part tenant cases _ _ u u' (
            subst
              (λ t. IsAlike part tenant (tenant_context subject t u) (tenant_context subject t u'))
              (sym same) (tenant_context-IsAlike part tenant subject u u' k)))
          λ context u1 u1' p1 k1. finish-IsAlike part tenant ApiError _ u1 u1' k1

  pub endpoint-IsAlike :
      (endpoint : Endpoint) (request : Request) (w v : World)
      → endpoint_tenant codecs endpoint request ≡ some tenant
      → Agree part tenant w v
      → IsAlike part tenant
          (endpoint_answer lib codecs state version clock endpoint request w)
          (endpoint_answer lib codecs state version clock endpoint request v)
  unfolding endpoint_answer
  endpoint-IsAlike index_page request w v e h = cc
  endpoint-IsAlike health_page request w v e h = cc
  endpoint-IsAlike metrics_page request w v e h = cc
  endpoint-IsAlike cases_list request w v e h = handled-IsAlike _ _ w v (
      Alike.list_cases-IsAlike part tenant lib codecs state apart clock request.headers
        (own_of _ tenant e) w v h)
  endpoint-IsAlike case_get request w v e h = extract-IsAlike request.path_id _ w v h λ id p.
      handled-IsAlike _ _ w v (
        Alike.get_case-IsAlike part tenant lib codecs state apart clock request.headers
          (own_of _ tenant e) w v h id)
  endpoint-IsAlike case_create request w v e h =
      extract-IsAlike request.create_body _ w v h λ command p.
        handled-IsAlike _ (λ made. mutation_json made.0 made.1) w v
          (Alike.create_case-IsAlike part tenant lib codecs state apart clock request.headers
            (own_of _ tenant e) w v h command)
  endpoint-IsAlike case_transition request w v e h = extract-IsAlike request.path_id _ w v h λ id p.
      extract-IsAlike request.transition_body _ w v h λ command p1. handled-IsAlike _ _ w v (
        Alike.transition_case-IsAlike part tenant lib codecs state apart clock request.headers
          (own_of _ tenant e) w v h id command)
  endpoint-IsAlike case_rotate_object request w v e h =
      extract-IsAlike request.path_id _ w v h λ id p.
        extract-IsAlike request.rotate_body _ w v h λ command p1. handled-IsAlike _ _ w v (
          Alike.rotate_encrypted_object-IsAlike part tenant lib codecs state apart clock
            request.headers (own_of _ tenant e) w v h id command)
  endpoint-IsAlike websocket_upgrade request w v e h =
      extract-IsAlike request.upgrade _ w v h λ upgrade p.
        extract-IsAlike request.query _ w v h λ query p1. handled-IsAlike _ _ w v (
          websocket-IsAlike query request.headers w v (own_query request.query query tenant e p1) h)

  answered-eq :
      (p q : Result Failure Answer × World)
      → IsAlike part tenant p q
      → ((answered p).0 ≡ (answered q).0) × Agree part tenant (answered p).1 (answered q).1
  answered-eq (ok a, w) (ok b, v) (e, h) = (cc, h)
  answered-eq (ok a, w) (err b, v) (e, h) = cc
  answered-eq (err a, w) (ok b, v) (e, h) = cc
  answered-eq (err a, w) (err b, v) (e, h) = (let same : a ≡ b = cc in ap failed same, h)

  routed-alike :
      (found : Option Endpoint) (request : Request) (w v : World)
      → bind_some found (λ endpoint. endpoint_tenant codecs endpoint request) ≡ some tenant
      → Agree part tenant w v
      → let before = routed lib codecs state version clock found request w in
        let after = routed lib codecs state version clock found request v in
        (before.0 ≡ after.0) × Agree part tenant before.1 after.1
  routed-alike none request w v e h = cc
  routed-alike (some endpoint) request w v e h =
      answered-eq _ _ (endpoint-IsAlike endpoint request w v e h)

  matched-alike :
      (path : Option Str) (request : Request) (w v : World)
      → bind_some path (λ p.
        bind_some
          (find_route p request.method routes)
          λ endpoint. endpoint_tenant codecs endpoint request)
        ≡ some tenant
      → Agree part tenant w v
      → let before = matched lib codecs state version clock path request w in
        let after = matched lib codecs state version clock path request v in
        (before.0 ≡ after.0) × Agree part tenant before.1 after.1
  matched-alike none request w v e h = cc
  matched-alike (some path) request w v e h =
      routed-alike (find_route path request.method routes) request w v e h

  -- Where the procedures keep to their tenant, a request for a tenant is answered by the rows of that
  -- tenant alone: in two worlds that agree on these, and on what is done to them during the request,
  -- the answers are equal, and the worlds agree afterwards. The rows of others make no difference.
  pub respond-alike :
      (request : Request) (w v : World)
      → request_tenant codecs request ≡ some tenant
      → Agree part tenant w v
      → let before = respond lib codecs state version clock request w in
        let after = respond lib codecs state version clock request v in
        (before.0 ≡ after.0) × Agree part tenant before.1 after.1
  unfolding respond
  respond-alike request w v e h = matched-alike request.matched_path request w v e h
