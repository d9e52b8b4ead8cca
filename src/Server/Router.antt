-- ===== src/Server/Router.antt =====
-- The router that `main` builds: its routes, and the answer of the endpoint that a route names. What
-- axum makes of a request before a handler runs is part of the request here: the pattern that its path
-- matches, and what each extractor takes from it, or the status of its refusal.
pub mod Silence
pub mod Broadcast
pub mod Provenance
pub mod Tenancy
pub mod Confined
pub mod Invariants
pub mod Purge
pub mod Fresh
pub mod Once
use apme_api.Prelude.{
  ℕ, Bool, true, false, ◌&&◌, Option, none, some, bind_some, List, [], ◌∷◌, Result, ok, err,
  map_err, if◌then◌else◌,
}
use mathlib.Core.Option
use apme_api.Text.{Str, codes, str_eq}
use apme_api.Domain.{
  Uuid, PersistedCase, CreateCaseCommand, TransitionCaseCommand, RotateEncryptedObjectCommand,
  CaseMutationResult, CaseSubscription, Interfaces,
}
use apme_api.Database.{World, Action, ◌>>=◌, lift, finish, raise_as}
use apme_api.Http.{HeaderMap, Codecs}
use apme_api.Api.Access.{AppState}
use apme_api.Api.Errors.{ApiError, ErrorResponse, into_response}
use apme_api.Api.Handlers.{
  Clock, list_cases, get_case, create_case, transition_case, rotate_encrypted_object,
}
use apme_api.Api.Sockets.{WebSocketQuery, websocket}
use apme_api.Server.Pages.{Index, index, Health, health, metrics}

-- axum runs the handler of GET for HEAD too: both are `get`.
pub data Method : Type 0 where
  get post other_method : Method

-- The handlers, by their names.
pub data Endpoint : Type 0 where
  index_page health_page metrics_page : Endpoint
  cases_list case_get case_create case_transition case_rotate_object : Endpoint
  websocket_upgrade : Endpoint

abbrev is_method : Method → Method → Bool
is_method get get = true
is_method post post = true
is_method _ _ = false

-- One `.route`, as many times as it has methods.
pub record Route : Type 0 where
  pub path : Str
  pub method : Method
  pub endpoint : Endpoint

abbrev pub to : Str → Method → Endpoint → Route
to path method endpoint = record { path = path; method = method; endpoint = endpoint }

unfoldable pub routes : List Route
unfolding codes
routes =
    to (codes "/") get index_page
    ∷ to (codes "/healthz") get health_page
    ∷ to (codes "/readyz") get health_page
    ∷ to (codes "/metrics") get metrics_page
    ∷ to (codes "/api/v1/cases") get cases_list
    ∷ to (codes "/api/v1/cases") post case_create
    ∷ to (codes "/api/v1/cases/{id}") get case_get
    ∷ to (codes "/api/v1/cases/{id}/transition") post case_transition
    ∷ to (codes "/api/v1/cases/{id}/rotate-object") post case_rotate_object
    ∷ to (codes "/ws") get websocket_upgrade
    ∷ []

unfoldable pub find_route : Str → Method → List Route → Option Endpoint
find_route path method [] = none
find_route path method (route ∷ later) =
    let rest = find_route path method later in
    if str_eq route.path path && is_method route.method method then some route.endpoint else rest

-- A refusal of axum's, by its status.
pub record Request : Type 0 where
  pub matched_path : Option Str
  pub method : Method
  pub headers : HeaderMap
  pub path_id : Result ℕ Uuid
  pub create_body : Result ℕ CreateCaseCommand
  pub transition_body : Result ℕ TransitionCaseCommand
  pub rotate_body : Result ℕ RotateEncryptedObjectCommand
  pub upgrade : Result ℕ (Unit {0})
  pub query : Result ℕ WebSocketQuery

-- What a client is answered. `upgraded` is the switch of protocols, with the loop's subscription.
pub data Answer : Type 0 where
  index_json : Index → Answer
  health_json : Health → Answer
  metrics_plain : Str → Answer
  cases_json : List PersistedCase → Answer
  case_json : PersistedCase → Answer
  mutation_json : ℕ → CaseMutationResult → Answer
  upgraded : CaseSubscription → Answer
  refused : ErrorResponse → Answer
  rejected : ℕ → Answer

pub data Failure : Type 0 where
  api : ApiError → Failure
  extractor : ℕ → Failure

abbrev pub failed : Failure → Answer
failed (api e) = refused (into_response e)
failed (extractor status) = rejected status

abbrev pub answered : Result Failure Answer × World → Answer × World
answered (ok answer, w) = (answer, w)
answered (err e, w) = (failed e, w)

abbrev pub extract : {A : Type 0} → Result ℕ A → Action Failure A
extract result = lift (map_err extractor result)

module _ (lib : Interfaces) (codecs : Codecs) (state : AppState) (version : Str)
    (clock : Clock) where
  -- The extractors of a handler run in the order of its parameters, the handler after them.
  unfoldable pub endpoint_answer : Endpoint → Request → Action Failure Answer
  endpoint_answer index_page request = finish (index_json index)
  endpoint_answer health_page request = finish (health_json (health version))
  endpoint_answer metrics_page request = do text ← raise_as api metrics; finish (metrics_plain text)
  endpoint_answer cases_list request = do
    listed ← raise_as api (list_cases lib codecs state clock request.headers)
    finish (cases_json listed)
  endpoint_answer case_get request = do
    id ← extract request.path_id
    found ← raise_as api (get_case lib codecs state clock id request.headers)
    finish (case_json found)
  endpoint_answer case_create request = do
    command ← extract request.create_body
    (status, mutation) ← raise_as api (create_case lib codecs state clock request.headers command)
    finish (mutation_json status mutation)
  endpoint_answer case_transition request = do
    id ← extract request.path_id
    command ← extract request.transition_body
    mutation ← raise_as api (transition_case lib codecs state clock id request.headers command)
    finish (mutation_json 200 mutation)
  endpoint_answer case_rotate_object request = do
    id ← extract request.path_id
    command ← extract request.rotate_body
    mutation ←
        raise_as api (rotate_encrypted_object lib codecs state clock id request.headers command)
    finish (mutation_json 200 mutation)
  endpoint_answer websocket_upgrade request = do
    upgrade ← extract request.upgrade
    query ← extract request.query
    subscription ← raise_as api (websocket codecs state query request.headers clock.seconds)
    finish (upgraded subscription)

  abbrev pub routed : Option Endpoint → Request → World → Answer × World
  routed none request w = (rejected 405, w)
  routed (some endpoint) request w = answered (endpoint_answer endpoint request w)

  -- A path that no route has is not found; one that no route has with this method is refused.
  abbrev pub matched : Option Str → Request → World → Answer × World
  matched none request w = (rejected 404, w)
  matched (some path) request w = routed (find_route path request.method routes) request w

  unfoldable pub respond : Request → World → Answer × World
  respond request w = matched request.matched_path request w

-- Requests one after another, each with its time. What others do to the tables is in the world.
unfoldable pub respond_all :
    Interfaces → Codecs → AppState → Str → List (Clock × Request) → World → World
respond_all lib codecs state version [] w = w
respond_all lib codecs state version ((clock, request) ∷ later) w =
    respond_all lib codecs state version later (respond lib codecs state version clock request w).1
