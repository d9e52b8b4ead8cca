-- ===== src/Server/Router/Purge.antt =====
-- Requests one after another, and what those of one tenant show of the others: the noninterference of
-- tenants, as a run with the requests of the others left out.
use apme_api.Prelude.{
  ◌≡◌, ◌≢◌, refl, ap, ◌∙◌, inl, inr, Option, none, some, Bool, true, false, Bool-cases, ◌==◌, List,
  [], ◌∷◌, All, select, arith,
}
use apme_api.Text.{Str}
use apme_api.Domain.{Uuid, Bytes, Interfaces}
use apme_api.Database.{Turn, World}
use apme_api.Database.Views.{view, SameTurns, IsUndisturbed}
use apme_api.Http.{Codecs}
use apme_api.Cases.Tenancy.{IsPartitioned}
use apme_api.Api.Access.{AppState}
use apme_api.Api.Handlers.{Clock}
use apme_api.Server.Router.{Request, Answer, respond}
use apme_api.Server.Router.Tenancy.{request_tenant, respond-alike}
use apme_api.Server.Router.Confined.{respond-kept}

-- A request, its time, and what surrounds its statements.
pub record Job : Type 0 where
  pub clock : Clock
  pub turns : List Turn
  pub request : Request

abbrev is_tenant : Uuid → Option Uuid → Bool
is_tenant tenant none = false
is_tenant tenant (some other) = other == tenant

-- Whether the job is a request for the tenant.
unfoldable pub is_for : Codecs → Uuid → Job → Bool
is_for codecs tenant job = is_tenant tenant (request_tenant codecs job.request)

module _ (lib : Interfaces) (codecs : Codecs) (state : AppState) (version : Str) where
  unfoldable pub serve_job : Job → World → Answer × World
  serve_job job w =
      respond lib codecs state version job.clock job.request (record w { schedule = job.turns })

  -- Each job with its answer.
  unfoldable pub serve_jobs : List Job → World → List (Job × Answer)
  serve_jobs [] w = []
  serve_jobs (job ∷ later) w =
      let (answer, after) = serve_job job w in (job, answer) ∷ serve_jobs later after

is_tenant-true : (tenant : Uuid) (o : Option Uuid) → is_tenant tenant o ≡ true → o ≡ some tenant
is_tenant-true tenant none e = cc
is_tenant-true tenant (some t) e = let same : t ≡ tenant = ground arith in ap some same

is_tenant-false : (tenant : Uuid) (o : Option Uuid) → is_tenant tenant o ≡ false → o ≢ some tenant
is_tenant-false tenant none e h = cc
is_tenant-false tenant (some t) e h = let same : t ≡ tenant = cc in ground arith

module _ (part : Uuid → Bytes → Bytes) (tenant : Uuid) where
  -- What surrounds a job for the tenant treats tables alike that the tenant cannot tell apart; what
  -- surrounds another job leaves the tenant's rows as they are.
  abbrev pub IsSurrounded : Codecs → Job → Type 0
  IsSurrounded codecs job =
      (is_for codecs tenant job ≡ true → SameTurns part tenant job.turns job.turns)
      × (is_for codecs tenant job ≡ false → IsUndisturbed part tenant job.turns)

  module _ (lib : Interfaces) (codecs : Codecs) (state : AppState)
      (apart : IsPartitioned part state.cases.pool tenant) (version : Str) where
    serve-own :
        (job : Job) (w v : World)
        → is_for codecs tenant job ≡ true
        → SameTurns part tenant job.turns job.turns
        → view part tenant w.tables ≡ view part tenant v.tables
        → let before = serve_job lib codecs state version job w in
          let after = serve_job lib codecs state version job v in
          (before.0 ≡ after.0)
          × (view part tenant before.1.tables ≡ view part tenant after.1.tables)
    unfolding serve_job is_for
    serve-own job w v e turns same =
        let (answers, agree) =
          respond-alike part tenant lib codecs state apart version job.clock job.request
            (record w { schedule = job.turns }) (record v { schedule = job.turns })
            (is_tenant-true tenant _ e) (record { tables = same; turns = turns }) in
        (answers, agree.tables)

    serve-other :
        (job : Job) (w : World)
        → is_for codecs tenant job ≡ false
        → IsUndisturbed part tenant job.turns
        → view part tenant (serve_job lib codecs state version job w).1.tables
          ≡ view part tenant w.tables
    unfolding serve_job is_for
    serve-other job w e turns =
        respond-kept part tenant (view part tenant w.tables) lib codecs state apart version
          job.clock job.request (record w { schedule = job.turns }) (is_tenant-false tenant _ e)
          refl turns

    -- Where the procedures keep to their tenant, and each job is surrounded as `IsSurrounded` says: of
    -- any jobs in any order, those for a tenant are answered as they are when they alone are served.
    -- The two runs may start from tables that differ in the rows of other tenants.
    pub serve_jobs-select :
        (jobs : List Job) (w v : World)
        → All (IsSurrounded codecs) jobs
        → view part tenant w.tables ≡ view part tenant v.tables
        → select
            (λ served. is_for codecs tenant served.0)
            (serve_jobs lib codecs state version jobs w)
          ≡ serve_jobs lib codecs state version (select (is_for codecs tenant) jobs) v
    unfolding serve_jobs select
    serve_jobs-select [] w v h same = refl
    serve_jobs-select (job ∷ later) w v (h, hs) same =
        elim (Bool-cases (is_for codecs tenant job)) [
          | inl e ↦
              let (answers, after) = serve-own job w v e (h.0 e) same in
              let rest =
                serve_jobs-select later (serve_job lib codecs state version job w).1
                  (serve_job lib codecs state version job v).1 hs after in
              rw (e, answers)
                (ap (λ ys. (job, (serve_job lib codecs state version job v).0) ∷ ys) rest)
          | inr e ↦ rw e (
              serve_jobs-select later (serve_job lib codecs state version job w).1 v hs
                (serve-other job w e (h.1 e) ∙ same))
        ]
