-- ===== src/Server/Router/Confined.antt =====
-- A request for another tenant, or for none, leaves the rows of a tenant as they are.
use apme_api.Prelude.{◌≡◌, ◌≢◌, ap, ◌∙◌, Option, none, some, List, [], ◌∷◌}
use apme_api.Text.{Str}
use apme_api.Domain.{Uuid, Bytes, Interfaces}
use apme_api.Database.{Tables, Turn, World}
use apme_api.Database.Views.{TenantView, view, IsUndisturbed}
use apme_api.Database.Invariants.{IsSteady}
use apme_api.Http.{Codecs}
use apme_api.Cases.Tenancy.{IsPartitioned}
use apme_api.Cases.Invariants.{IsKeeping}
use apme_api.Api.Access.{AppState}
use apme_api.Api.Handlers.{Clock}
use apme_api.Server.Router.{Request, respond}
use apme_api.Server.Router.Tenancy.{request_tenant}
use apme_api.Server.Router.Invariants.{IsOf, respond-IsKept}

module _ (part : Uuid → Bytes → Bytes) (tenant : Uuid) (rows : TenantView) where
  -- The tenant's rows are these.
  abbrev Shows : Tables → Type 0
  Shows t = view part tenant t ≡ rows

  abbrev IsOther : Uuid → Type 0
  IsOther t = t ≢ tenant

  undisturbed-IsSteady :
      (turns : List Turn) → IsUndisturbed part tenant turns → IsSteady Shows turns
  undisturbed-IsSteady [] h = tt
  undisturbed-IsSteady (turn ∷ turns) (h, hs) = (λ t e. h t ∙ e, undisturbed-IsSteady turns hs)

  module _ (lib : Interfaces) (codecs : Codecs) (state : AppState)
      (apart : IsPartitioned part state.cases.pool tenant) (version : Str) (clock : Clock) where
    partitioned-IsKeeping : IsKeeping Shows IsOther state.cases.pool
    partitioned-IsKeeping = record {
      create = λ args other t e. apart.create_other args other t ∙ e;
      transition = λ args other t e. apart.transition_other args other t ∙ e;
      rotate = λ args other t e. apart.rotate_other args other t ∙ e;
      audit = λ args other t e. apart.audit_other args other t ∙ e;
    }

    IsOther-IsOf : (o : Option Uuid) → o ≢ some tenant → IsOf IsOther o
    IsOther-IsOf none h = tt
    IsOther-IsOf (some t) h = λ e. h (ap some e)

    -- Where the procedures keep to their tenant, a request that is not for this tenant leaves its rows
    -- as they are, if what else is done to the tables meanwhile does.
    pub respond-kept :
        (request : Request) (w : World)
        → request_tenant codecs request ≢ some tenant
        → view part tenant w.tables ≡ rows
        → IsUndisturbed part tenant w.schedule
        → view part tenant (respond lib codecs state version clock request w).1.tables ≡ rows
    respond-kept request w other e h =
        (respond-IsKept Shows lib codecs state IsOther partitioned-IsKeeping version clock request w
          (IsOther-IsOf _ other) e (undisturbed-IsSteady w.schedule h)).0
