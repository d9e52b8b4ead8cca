-- ===== src/Server/Router/Broadcast.antt =====
-- What one answered request sends to the sockets.
use apme_api.Prelude.{
  ℕ, ◌≡◌, refl, sym, ◌∙◌, inl, inr, Option, none, some, List, [], ◌∷◌, ◌++◌, Result, ok, err,
  map_err, All, if◌then◌else◌,
}
use mathlib.Core.List.{append-nil}
use apme_api.Text.{Str}
use apme_api.Domain.{VerifiedSubject, TenantContext, CaseMutationResult, Interfaces}
use apme_api.Database.{TenantEvent, World, Action, continue, lift, finish, raise_as}
use apme_api.Database.Silence.{IsSilent}
use apme_api.Http.{HeaderMap, Codecs}
use apme_api.Auth.Session.{cases_write_scope}
use apme_api.Auth.Service.Outcomes.{IsAuthenticated}
use apme_api.Cases.Errors.{CaseServiceError}
use apme_api.Api.Errors.{ApiError, into_response}
use apme_api.Api.Access.{AppState, tenant_id}
use apme_api.Api.Access.Membership.{IsGranted}
use apme_api.Api.Handlers.{Clock, event_of, create_case, transition_case, rotate_encrypted_object}
use apme_api.Api.Handlers.Publication.{IsServed}
use apme_api.Api.Handlers.Served.{
  create_case-IsServed, transition_case-IsServed, rotate_encrypted_object-IsServed,
}
use apme_api.Api.Handlers.Unpublished.{
  create_case_unpublished, transition_case_unpublished, rotate_encrypted_object_unpublished,
}
use apme_api.Server.Router.{
  Endpoint, index_page, health_page, metrics_page, cases_list, case_get, case_create,
  case_transition, case_rotate_object, websocket_upgrade, Request, Answer, index_json, health_json,
  metrics_plain, cases_json, case_json, mutation_json, upgraded, refused, rejected, Failure, api,
  answered, extract, endpoint_answer, routed, matched, find_route, routes, respond,
}
use apme_api.Server.Pages.{metrics, index, health}
use apme_api.Server.Router.Silence.{
  metrics-IsSilent, websocket-IsSilent, list_cases_handler-IsSilent, get_case_handler-IsSilent,
}

-- The events that an answer stands for: that of a mutation that is no replay.
abbrev pub announced : Answer → List TenantEvent
announced (mutation_json status m) = if m.replayed then [] else event_of m ∷ []
announced (index_json _) = []
announced (health_json _) = []
announced (metrics_plain _) = []
announced (cases_json _) = []
announced (case_json _) = []
announced (upgraded _) = []
announced (refused _) = []
announced (rejected _) = []

-- An event of a tenant comes from a subject authenticated with the write scope and a member of that
-- tenant, which the header names.
pub record IsWarranted (codecs : Codecs) (state : AppState) (seconds : ℕ) (headers : HeaderMap)
    (w : World) (event : TenantEvent) : Type 0 where
  pub subject : VerifiedSubject
  pub context : TenantContext
  pub authentic : IsAuthenticated codecs state.auth headers (cases_write_scope ∷ []) seconds subject
  pub tenant : tenant_id codecs headers ≡ ok context.tenant_id
  pub member : IsGranted subject w context
  pub own : event.tenant_id ≡ context.tenant_id

module _ (codecs : Codecs) (state : AppState) (seconds : ℕ) (headers : HeaderMap) where
  abbrev pub IsAnnounced : World → Answer × World → Type 0
  IsAnnounced w (answer, w') =
      (w'.published ≡ w.published ++ announced answer)
      × All (IsWarranted codecs state seconds headers w) (announced answer)

  nothing_announced :
      (w w' : World) (answer : Answer)
      → announced answer ≡ []
      → w'.published ≡ w.published
      → IsAnnounced w (answer, w')
  nothing_announced w w' answer e silent = rw e (silent ∙ sym (append-nil w.published), tt)

  silent_answer :
      {A : Type 0} (p : Result ApiError A × World) (f : A → Answer) (w : World)
      → ((a : A) → announced (f a) ≡ [])
      → IsSilent w.published p
      → IsAnnounced w (answered (continue (map_err api p.0, p.1) (λ a. finish (f a))))
  unfolding continue finish
  silent_answer (ok a, u) f w none_of silent = nothing_announced w u (f a) (none_of a) silent
  silent_answer (err e, u) f w none_of silent =
      nothing_announced w u (refused (into_response e)) refl silent

  extracted :
      {A : Type 0} (r : Result ℕ A) (f : A → Action Failure Answer) (w : World)
      → ((a : A) → IsAnnounced w (answered (f a w)))
      → IsAnnounced w (answered (continue (extract r w) f))
  unfolding continue lift
  extracted (ok a) f w rest = rest a
  extracted (err status) f w rest = nothing_announced w w (rejected status) refl refl

  served_answer :
      (mutate : VerifiedSubject → TenantContext → Str → Action CaseServiceError CaseMutationResult)
      (w w' : World) (status : ℕ) (m : CaseMutationResult)
      → IsServed codecs state seconds headers mutate w w' m
      → IsAnnounced w (mutation_json status m, w')
  served_answer mutate w w' status m served = elim served.event_published [
    | inl (replayed, same) ↦ nothing_announced w w' (mutation_json status m) (rw replayed refl) same
    | inr (fresh, appended) ↦ rw fresh (
      appended,
      (
        record {
          subject = served.subject;
          context = served.context;
          authentic = served.authentic;
          tenant = served.tenant;
          member = served.member;
          own = served.own_case;
        },
        tt,
      ),
    )
  ]

  mutation_answer :
      {A : Type 0} (p : Result ApiError A × World) (f : A → ℕ × CaseMutationResult) (w : World)
      → ((a : A) (w' : World) → p ≡ (ok a, w') → IsAnnounced w (mutation_json (f a).0 (f a).1, w'))
      → ((e : ApiError) (w' : World) → p ≡ (err e, w') → w'.published ≡ w.published)
      → IsAnnounced w
          (answered (continue (map_err api p.0, p.1) (λ a. finish (mutation_json (f a).0 (f a).1))))
  unfolding continue finish
  mutation_answer (ok a, u) f w served unserved = served a u refl
  mutation_answer (err e, u) f w served unserved =
      nothing_announced w u (refused (into_response e)) refl (unserved e u refl)

module _ (lib : Interfaces) (codecs : Codecs) (state : AppState) (version : Str)
    (clock : Clock) where
  endpoint-IsAnnounced :
      (endpoint : Endpoint) (request : Request) (w : World)
      → IsAnnounced codecs state clock.seconds request.headers w
          (answered (endpoint_answer lib codecs state version clock endpoint request w))
  unfolding endpoint_answer raise_as finish
  endpoint-IsAnnounced index_page request w =
      nothing_announced codecs state clock.seconds request.headers w w (index_json index) refl refl
  endpoint-IsAnnounced health_page request w =
      nothing_announced codecs state clock.seconds request.headers w w
        (health_json (health version)) refl refl
  endpoint-IsAnnounced metrics_page request w =
      silent_answer codecs state clock.seconds request.headers (metrics w)
        (λ text. metrics_plain text) w (λ a. refl) (metrics-IsSilent w)
  endpoint-IsAnnounced cases_list request w =
      silent_answer codecs state clock.seconds request.headers _ (λ listed. cases_json listed) w
        (λ a. refl) (list_cases_handler-IsSilent codecs state request.headers lib clock w)
  endpoint-IsAnnounced case_get request w =
      extracted codecs state clock.seconds request.headers request.path_id _ w λ id.
        silent_answer codecs state clock.seconds request.headers _ (λ found. case_json found) w
          (λ a. refl) (get_case_handler-IsSilent codecs state request.headers lib clock id w)
  endpoint-IsAnnounced websocket_upgrade request w =
      extracted codecs state clock.seconds request.headers request.upgrade _ w λ upgrade.
        extracted codecs state clock.seconds request.headers request.query _ w λ query.
          silent_answer codecs state clock.seconds request.headers _ (λ s. upgraded s) w (λ a. refl)
            (websocket-IsSilent codecs state request.headers query clock.seconds w)
  endpoint-IsAnnounced case_create request w =
      extracted codecs state clock.seconds request.headers request.create_body _ w λ command.
        mutation_answer codecs state clock.seconds request.headers
          (create_case lib codecs state clock request.headers command w) (λ a. a) w
          (λ (status, m) w' h.
            served_answer codecs state clock.seconds request.headers _ w w' status m
              (create_case-IsServed lib codecs state clock request.headers command w w' status m
                h).0)
          (λ e w' h.
            create_case_unpublished lib codecs state clock request.headers command w w' e h)
  endpoint-IsAnnounced case_transition request w =
      extracted codecs state clock.seconds request.headers request.path_id _ w λ id.
        extracted codecs state clock.seconds request.headers request.transition_body _ w λ command.
          mutation_answer codecs state clock.seconds request.headers
            (transition_case lib codecs state clock id request.headers command w) (λ m. (200, m)) w
            (λ m w' h.
              served_answer codecs state clock.seconds request.headers _ w w' 200 m (
                transition_case-IsServed lib codecs state clock request.headers id command w w' m
                  h))
            (λ e w' h.
              transition_case_unpublished lib codecs state clock request.headers id command w w' e
                h)
  endpoint-IsAnnounced case_rotate_object request w =
      extracted codecs state clock.seconds request.headers request.path_id _ w λ id.
        extracted codecs state clock.seconds request.headers request.rotate_body _ w λ command.
          mutation_answer codecs state clock.seconds request.headers
            (rotate_encrypted_object lib codecs state clock id request.headers command w)
            (λ m. (200, m)) w
            (λ m w' h. served_answer codecs state clock.seconds request.headers _ w w' 200 m (
              rotate_encrypted_object-IsServed lib codecs state clock request.headers id command w
                w' m h))
            (λ e w' h.
              rotate_encrypted_object_unpublished lib codecs state clock request.headers id command
                w w' e h)

  routed-IsAnnounced :
      (found : Option Endpoint) (request : Request) (w : World)
      → IsAnnounced codecs state clock.seconds request.headers w
          (routed lib codecs state version clock found request w)
  routed-IsAnnounced none request w =
      nothing_announced codecs state clock.seconds request.headers w w (rejected 405) refl refl
  routed-IsAnnounced (some endpoint) request w = endpoint-IsAnnounced endpoint request w

  matched-IsAnnounced :
      (path : Option Str) (request : Request) (w : World)
      → IsAnnounced codecs state clock.seconds request.headers w
          (matched lib codecs state version clock path request w)
  matched-IsAnnounced none request w =
      nothing_announced codecs state clock.seconds request.headers w w (rejected 404) refl refl
  matched-IsAnnounced (some path) request w =
      routed-IsAnnounced (find_route path request.method routes) request w

  -- Whatever a request is and however it is answered, the events that reach the channel are exactly
  -- those that its answer stands for: one for a mutation that is no replay, none for anything else.
  -- Each is of the tenant that the request's header names, and its subject is authenticated with
  -- the write scope and a member of that tenant.
  pub respond-IsAnnounced :
      (request : Request) (w : World)
      → IsAnnounced codecs state clock.seconds request.headers w
          (respond lib codecs state version clock request w)
  unfolding respond
  respond-IsAnnounced request w = matched-IsAnnounced request.matched_path request w
