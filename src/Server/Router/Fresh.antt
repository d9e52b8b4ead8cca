-- ===== src/Server/Router/Fresh.antt =====
-- The events that an answer stands for are new.
use apme_api.Prelude.{
  ℕ, ◌≡◌, refl, inl, inr, Option, none, some, false, Bool-cases, List, [], All, Result, ok, err,
  map_err,
}
use apme_api.Text.{Str}
use apme_api.Domain.{Uuid, CaseMutationResult, Interfaces}
use apme_api.Database.{World, Action, continue, lift, finish, raise_as}
use apme_api.Http.{Codecs}
use apme_api.Cases.Mutations.Fresh.{AllStored, IsLasting, IsLedger, IsNew}
use apme_api.Api.Errors.{ApiError}
use apme_api.Api.Access.{AppState}
use apme_api.Api.Handlers.{Clock, create_case, transition_case, rotate_encrypted_object}
use apme_api.Api.Handlers.Fresh.{
  create_case-IsNew, transition_case-IsNew, rotate_encrypted_object-IsNew,
}
use apme_api.Server.Router.{
  Endpoint, index_page, health_page, metrics_page, cases_list, case_get, case_create,
  case_transition, case_rotate_object, websocket_upgrade, Request, Answer, metrics_plain,
  cases_json, case_json, mutation_json, upgraded, Failure, api, answered, extract, endpoint_answer,
  routed, matched, find_route, routes, respond,
}
use apme_api.Server.Router.Broadcast.{announced}

-- The events that an answer stands for are new, after these.
abbrev pub AreNew : List Uuid → Answer × World → Type 0
AreNew ids (answer, w) = All (λ e. IsNew ids e.event.event_id w.tables) (announced answer)

nothing_new :
    (ids : List Uuid) (answer : Answer) (w : World) → announced answer ≡ [] → AreNew ids (answer, w)
nothing_new ids answer w e = rw e tt

mutation_new :
    (ids : List Uuid) (status : ℕ) (m : CaseMutationResult) (w : World)
    → (m.replayed ≡ false → IsNew ids m.event.event_id w.tables)
    → AreNew ids (mutation_json status m, w)
mutation_new ids status m w h = elim (Bool-cases m.replayed) [
  | inl e ↦ rw e tt
  | inr e ↦ rw e (h e, tt)
]

module _ (ids : List Uuid) where
  silent_new :
      {A : Type 0} (p : Result ApiError A × World) (f : A → Answer)
      → ((a : A) → announced (f a) ≡ [])
      → AreNew ids (answered (continue (map_err api p.0, p.1) (λ a. finish (f a))))
  unfolding continue finish
  silent_new (ok a, u) f none_of = nothing_new ids (f a) u (none_of a)
  silent_new (err e, u) f none_of = tt

  extracted_new :
      {A : Type 0} (r : Result ℕ A) (f : A → Action Failure Answer) (w : World)
      → ((a : A) → AreNew ids (answered (f a w)))
      → AreNew ids (answered (continue (extract r w) f))
  unfolding continue lift
  extracted_new (ok a) f w rest = rest a
  extracted_new (err status) f w rest = tt

  answer_new :
      {A : Type 0} (p : Result ApiError A × World) (f : A → ℕ × CaseMutationResult)
      → ((a : A) (w' : World)
          → p ≡ (ok a, w')
          → (f a).1.replayed ≡ false
          → IsNew ids (f a).1.event.event_id w'.tables)
      → AreNew ids
          (answered (continue (map_err api p.0, p.1) (λ a. finish (mutation_json (f a).0 (f a).1))))
  unfolding continue finish
  answer_new (ok a, u) f new = mutation_new ids (f a).0 (f a).1 u (new a u refl)
  answer_new (err e, u) f new = tt

module _ (ids : List Uuid) (lib : Interfaces) (codecs : Codecs) (state : AppState)
    (ledger : IsLedger state.cases.pool) (version : Str) (clock : Clock) (request : Request)
    (w : World) (told : AllStored ids w.tables) (lasting : IsLasting w.schedule) where
  endpoint_new :
      (endpoint : Endpoint)
      → AreNew ids (answered (endpoint_answer lib codecs state version clock endpoint request w))
  unfolding endpoint_answer raise_as finish
  endpoint_new index_page = tt
  endpoint_new health_page = tt
  endpoint_new metrics_page = silent_new ids _ (λ text. metrics_plain text) (λ a. refl)
  endpoint_new cases_list = silent_new ids _ (λ listed. cases_json listed) (λ a. refl)
  endpoint_new case_get =
      extracted_new ids request.path_id _ w
        λ id. silent_new ids _ (λ found. case_json found) (λ a. refl)
  endpoint_new websocket_upgrade = extracted_new ids request.upgrade _ w λ upgrade.
      extracted_new ids request.query _ w λ query. silent_new ids _ (λ s. upgraded s) (λ a. refl)
  endpoint_new case_create = extracted_new ids request.create_body _ w λ command.
      answer_new ids (create_case lib codecs state clock request.headers command w) (λ a. a)
        λ (status, m) w' h.
          create_case-IsNew ids lib codecs state ledger clock request.headers w w' told lasting
            command status m h
  endpoint_new case_transition = extracted_new ids request.path_id _ w λ id.
      extracted_new ids request.transition_body _ w λ command.
        answer_new ids (transition_case lib codecs state clock id request.headers command w)
          (λ m. (200, m))
          λ m w' h.
            transition_case-IsNew ids lib codecs state ledger clock request.headers w w' told
              lasting id command m h
  endpoint_new case_rotate_object = extracted_new ids request.path_id _ w λ id.
      extracted_new ids request.rotate_body _ w λ command.
        answer_new ids (rotate_encrypted_object lib codecs state clock id request.headers command w)
          (λ m. (200, m))
          λ m w' h.
            rotate_encrypted_object-IsNew ids lib codecs state ledger clock request.headers w w'
              told lasting id command m h

  routed_new :
      (found : Option Endpoint) → AreNew ids (routed lib codecs state version clock found request w)
  routed_new none = tt
  routed_new (some endpoint) = endpoint_new endpoint

  matched_new :
      (path : Option Str) → AreNew ids (matched lib codecs state version clock path request w)
  matched_new none = tt
  matched_new (some path) = routed_new (find_route path request.method routes)

  pub respond-AreNew : AreNew ids (respond lib codecs state version clock request w)
  unfolding respond
  respond-AreNew = matched_new request.matched_path
