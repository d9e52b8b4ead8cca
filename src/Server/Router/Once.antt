-- ===== src/Server/Router/Once.antt =====
-- No event is published twice, however often requests are repeated.
use mathlib.Core.Path.{subst}
use mathlib.Core.List.{append-nil, append_assoc}
use apme_api.Prelude.{
  ◌≡◌, ◌≢◌, refl, sym, ap, ◌∙◌, ◌⊎◌, inl, inr, Option, none, some, Bool-cases, List, [], ◌∷◌, ◌++◌,
  map, All, All-append,
}
use apme_api.Text.{Str}
use apme_api.Domain.{Uuid, Interfaces}
use apme_api.Database.{TenantEvent, World}
use apme_api.Http.{Codecs}
use apme_api.Cases.Mutations.Fresh.{
  Stored, AllStored, IsLasting, IsLedger, IsNew, lasting-IsSteady, ledger-IsKeeping,
}
use apme_api.Api.Access.{AppState}
use apme_api.Api.Handlers.{event_of}
use apme_api.Server.Router.{
  Answer, index_json, health_json, metrics_plain, cases_json, case_json, mutation_json, upgraded,
  refused, rejected, respond,
}
use apme_api.Server.Router.Broadcast.{announced, respond-IsAnnounced}
use apme_api.Server.Router.Tenancy.{request_tenant}
use apme_api.Server.Router.Invariants.{IsOf, respond-IsKept}
use apme_api.Server.Router.Purge.{Job, serve_job}
use apme_api.Server.Router.Fresh.{respond-AreNew}

-- No id occurs twice.
abbrev pub Distinct : List Uuid → Type 0
Distinct [] = Unit {0}
Distinct (id ∷ ids) = All (λ other. id ≢ other) ids × Distinct ids

abbrev pub ids_of : List TenantEvent → List Uuid
ids_of events = map (λ e. e.event.event_id) events

Distinct-append :
    (ids : List Uuid) (id : Uuid)
    → Distinct ids
    → All (λ old. old ≢ id) ids
    → Distinct (ids ++ id ∷ [])
Distinct-append [] id h new = (tt, tt)
Distinct-append (old ∷ ids) id (h, hs) (new, news) =
    (All-append (λ other. old ≢ other) ids (id ∷ []) h (new, tt), Distinct-append ids id hs news)

ids_of-append :
    (events : List TenantEvent) (event : TenantEvent)
    → ids_of (events ++ event ∷ []) ≡ ids_of events ++ event.event.event_id ∷ []
ids_of-append [] event = refl
ids_of-append (e ∷ events) event = ap (λ ids. e.event.event_id ∷ ids) (ids_of-append events event)

-- An answer stands for one event at most.
announced-cases :
    (answer : Answer)
    → (announced answer ≡ []) ⊎ ((event : TenantEvent) × (announced answer ≡ event ∷ []))
announced-cases (mutation_json status m) = elim (Bool-cases m.replayed) [
  | inl e ↦ inl (rw e refl)
  | inr e ↦ inr (event_of m, rw e refl)
]
announced-cases (index_json _) = inl refl
announced-cases (health_json _) = inl refl
announced-cases (metrics_plain _) = inl refl
announced-cases (cases_json _) = inl refl
announced-cases (case_json _) = inl refl
announced-cases (upgraded _) = inl refl
announced-cases (refused _) = inl refl
announced-cases (rejected _) = inl refl

-- Every event that was published is stored, as these are, and no two of all of them are the same.
abbrev IsToldOnce : List Uuid → World → Type 0
IsToldOnce lost w =
    Distinct (lost ++ ids_of w.published) × AllStored (lost ++ ids_of w.published) w.tables

told_once :
    (lost : List Uuid) (w w' : World) (new : List TenantEvent)
    → (new ≡ []) ⊎ ((event : TenantEvent) × (new ≡ event ∷ []))
    → w'.published ≡ w.published ++ new
    → All (λ e. IsNew (lost ++ ids_of w.published) e.event.event_id w'.tables) new
    → Distinct (lost ++ ids_of w.published)
    → AllStored (lost ++ ids_of w.published) w'.tables
    → IsToldOnce lost w'
told_once lost w w' new (inl silent) e fresh distinct stored =
    let same : w.published ≡ w'.published =
      sym (append-nil w.published) ∙ ap (λ n. w.published ++ n) (sym silent) ∙ sym e in
    subst (λ p. Distinct (lost ++ ids_of p) × AllStored (lost ++ ids_of p) w'.tables) same
      (distinct, stored)
told_once lost w w' new (inr (event, one)) e fresh distinct stored =
    let ids = lost ++ ids_of w.published in
    let (is_new, _) =
      subst (λ n. All (λ (d : TenantEvent). IsNew ids d.event.event_id w'.tables) n) one fresh in
    let told : ids_of w'.published ≡ ids_of w.published ++ event.event.event_id ∷ [] =
      ap ids_of e ∙ ap (λ n. ids_of (w.published ++ n)) one ∙ ids_of-append w.published event in
    let all : lost ++ ids_of w'.published ≡ ids ++ event.event.event_id ∷ [] =
      ap (λ p. lost ++ p) told
      ∙ sym (append_assoc lost (ids_of w.published) (event.event.event_id ∷ [])) in
    subst (λ p. Distinct p × AllStored p w'.tables) (sym all)
      (
        Distinct-append ids event.event.event_id distinct is_new.unspent,
        All-append _ ids (event.event.event_id ∷ []) stored (is_new.stored, tt),
      )

any_tenant : (o : Option Uuid) → IsOf (λ tenant. Unit {0}) o
any_tenant none = tt
any_tenant (some tenant) = tt

module _ (lib : Interfaces) (codecs : Codecs) (state : AppState) (version : Str) where
  -- The world after the jobs.
  unfoldable pub after_jobs : List Job → World → World
  after_jobs [] w = w
  after_jobs (job ∷ later) w = after_jobs later (serve_job lib codecs state version job w).1

  module _ (ledger : IsLedger state.cases.pool) where
    serve_job-IsToldOnce :
        (lost : List Uuid) (job : Job) (w : World)
        → IsLasting job.turns
        → IsToldOnce lost w
        → IsToldOnce lost (serve_job lib codecs state version job w).1
    unfolding serve_job
    serve_job-IsToldOnce lost job w lasting (distinct, stored) =
        let ids = lost ++ ids_of w.published in
        let before = record w { schedule = job.turns } in
        let kept =
          respond-IsKept (AllStored ids) lib codecs state (λ tenant. Unit {0})
            (ledger-IsKeeping ids state.cases.pool ledger) version job.clock job.request before
            (any_tenant (request_tenant codecs job.request)) stored
            (lasting-IsSteady ids job.turns lasting) in
        let served = respond lib codecs state version job.clock job.request before in
        told_once lost before served.1 (announced served.0) (announced-cases served.0)
          (respond-IsAnnounced lib codecs state version job.clock job.request before).0
          (respond-AreNew ids lib codecs state ledger version job.clock job.request before stored
            lasting)
          distinct kept.0

    jobs-IsToldOnce :
        (lost : List Uuid) (jobs : List Job) (w : World)
        → All (λ job. IsLasting job.turns) jobs
        → IsToldOnce lost w
        → IsToldOnce lost (after_jobs jobs w)
    unfolding after_jobs
    jobs-IsToldOnce lost [] w lasting once = once
    jobs-IsToldOnce lost (job ∷ later) w (lasting, rest) once =
        jobs-IsToldOnce lost later (serve_job lib codecs state version job w).1 rest
          (serve_job-IsToldOnce lost job w lasting once)

    -- Where no procedure removes an event, or says of an event that was there that it is no replay, and
    -- others remove no event: from an empty channel on, whatever is requested and repeated, one
    -- after another, and however statements fail, no event is published twice, and every event
    -- published is stored.
    pub published_once :
        (jobs : List Job) (w : World)
        → All (λ job. IsLasting job.turns) jobs
        → w.published ≡ []
        → let after = after_jobs jobs w in
          Distinct (ids_of after.published) × AllStored (ids_of after.published) after.tables
    published_once jobs w lasting empty =
        jobs-IsToldOnce [] jobs w lasting
          (subst (λ p. Distinct (ids_of p) × AllStored (ids_of p) w.tables) (sym empty) (tt, tt))

    -- Where no procedure removes an event, or says of an event that was there that it is no replay, and
    -- others remove no event: an event that is stored but was not published, where those published are
    -- stored and no two are the same, is never published by requests one after another, however often
    -- they are repeated.
    pub never_published :
        (id : Uuid) (jobs : List Job) (w : World)
        → All (λ job. IsLasting job.turns) jobs
        → Stored id w.tables
        → All (λ told. id ≢ told) (ids_of w.published)
        → Distinct (ids_of w.published)
        → AllStored (ids_of w.published) w.tables
        → All (λ told. id ≢ told) (ids_of (after_jobs jobs w).published)
    never_published id jobs w lasting there untold distinct stored =
        (jobs-IsToldOnce (id ∷ []) jobs w lasting ((untold, distinct), (there, stored))).0.0
