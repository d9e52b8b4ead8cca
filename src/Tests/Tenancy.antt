-- ===== src/Tests/Tenancy.antt =====
-- Two tenants on one deployment, whose procedures keep to the tenant that they are given.
use apme_api.Prelude.{
  ◌≡◌, ◌≢◌, arith, refl, sym, ◌∙◌, ap, true, false, some, ◌==◌, List, [], ◌∷◌, ok, select,
  if◌then◌else◌,
}
use apme_api.Prelude.Int.{ℤ}
use apme_api.Text.{codes, str_eq}
use apme_api.Domain.{Uuid, Bytes}
use apme_api.Database.{World, Pool, Query, MutationRow}
use apme_api.Database.Views.{TenantView, view, Agree, IsSeparate, IsElsewhere}
use apme_api.Http.{insert_header, tenant_header}
use apme_api.Cases.Tenancy.{IsPartitioned}
use apme_api.Api.Access.{AppState, tenant_id}
use apme_api.Server.Router.{Request, respond, find_route, routes}
use apme_api.Server.Router.Tenancy.{request_tenant, respond-alike}
use apme_api.Server.Router.Confined.{respond-kept}
use apme_api.Server.Router.Purge.{Job, is_for, serve_jobs, serve_jobs-select}
use apme_api.Tests.Fixture.{
  stored_row, user, lib, codecs, auth, clock, tenant, world, tables, event_row, mutation_row,
  headers,
}
use apme_api.Tests.Server.{version, request}

-- The audit of a tenant is what carries its identifier.
abbrev part : Uuid → Bytes → Bytes
part owner hidden = select (λ byte. byte == owner) hidden

abbrev add_event : Uuid → Query MutationRow
add_event owner t =
    (ok mutation_row, record t { events = record event_row { tenant_id = owner } ∷ t.events })

abbrev add_audit : Uuid → Query (Unit {0})
add_audit owner t = (ok tt, record t { hidden = owner ∷ t.hidden })

abbrev pool : Pool
pool = record {
  migration = λ t. (ok tt, t);
  create_case = λ args. add_event args.tenant_id;
  transition_case = λ args. add_event args.tenant_id;
  rotate_case_object = λ args. add_event args.tenant_id;
  append_audit = λ args. add_audit args.tenant_id;
  apply_retention = λ now actor t. (ok (ℤ.pos 0), t);
  verify_case_audit = λ id t. (ok true, t);
  verify_tenant_audit = λ id t. (ok true, t);
}

is_other : (owner : Uuid) → owner ≢ tenant → (owner == tenant) ≡ false
is_other owner other = ground arith

add_event-IsSeparate : (owner : Uuid) → IsSeparate part tenant (add_event owner)
unfolding select
add_event-IsSeparate owner a b same = (
  refl,
  ap
      (λ (v : TenantView). record v {
        events =
            if owner == tenant then record event_row { tenant_id = owner } ∷ v.events else v.events;
      })
      same,
)

add_event-IsElsewhere : (owner : Uuid) → owner ≢ tenant → IsElsewhere part tenant (add_event owner)
unfolding select
add_event-IsElsewhere owner other t = rw (is_other owner other) refl

add_audit-IsSeparate : (owner : Uuid) → IsSeparate part tenant (add_audit owner)
unfolding select
add_audit-IsSeparate owner a b same = (
  refl,
  ap
      (λ (v : TenantView). record v {
        hidden = if owner == tenant then owner ∷ v.hidden else v.hidden;
      })
      same,
)

add_audit-IsElsewhere : (owner : Uuid) → owner ≢ tenant → IsElsewhere part tenant (add_audit owner)
unfolding select
add_audit-IsElsewhere owner other t = rw (is_other owner other) refl

apart : IsPartitioned part pool tenant
apart = record {
  create_own = λ args own. add_event-IsSeparate args.tenant_id;
  create_other = λ args. add_event-IsElsewhere args.tenant_id;
  transition_own = λ args own. add_event-IsSeparate args.tenant_id;
  transition_other = λ args. add_event-IsElsewhere args.tenant_id;
  rotate_own = λ args own. add_event-IsSeparate args.tenant_id;
  rotate_other = λ args. add_event-IsElsewhere args.tenant_id;
  audit_own = λ args own. add_audit-IsSeparate args.tenant_id;
  audit_other = λ args. add_audit-IsElsewhere args.tenant_id;
}

abbrev state : AppState
state = record { auth = auth; cases = record { pool = pool } }

-- The same world without the case of tenant 8, and with a member of that tenant.
abbrev stranger : World
stranger = record world {
  tables = record tables {
    cases = stored_row tenant 2 ∷ [];
    memberships =
        record { tenant_id = 8; shared_user_id = user; role = codes "viewer"; active = true }
        ∷ tables.memberships;
  };
}

same_view : view part tenant world.tables ≡ view part tenant stranger.tables
unfolding select
same_view = refl

is_own : request_tenant codecs request ≡ some tenant
unfolding codes find_route routes str_eq tenant_id
is_own = refl

alike_example :
    let before = respond lib codecs state version clock request world in
    let after = respond lib codecs state version clock request stranger in
    (before.0 ≡ after.0) × Agree part tenant before.1 after.1
alike_example =
    respond-alike part tenant lib codecs state apart version clock request world stranger is_own
      (record { tables = same_view; turns = tt })

-- A creation by a member of tenant 8.
abbrev foreign : Request
foreign = record request { headers = insert_header tenant_header (8 ∷ []) headers }

foreign_tenant : request_tenant codecs foreign ≡ some 8
unfolding codes find_route routes str_eq tenant_id
foreign_tenant = refl

is_foreign : request_tenant codecs foreign ≢ some tenant
is_foreign own = let same : some 8 ≡ some tenant = sym foreign_tenant ∙ own in ground arith

kept_example :
    view part tenant (respond lib codecs state version clock foreign stranger).1.tables
    ≡ view part tenant stranger.tables
kept_example =
    respond-kept part tenant (view part tenant stranger.tables) lib codecs state apart version clock
      foreign stranger is_foreign refl tt

abbrev jobs : List Job
jobs =
    record { clock = clock; turns = []; request = foreign }
    ∷ record { clock = clock; turns = []; request = request }
    ∷ []

purge_example :
    select
      (λ served. is_for codecs tenant served.0)
      (serve_jobs lib codecs state version jobs stranger)
    ≡ serve_jobs lib codecs state version (select (is_for codecs tenant) jobs) world
purge_example =
    serve_jobs-select part tenant lib codecs state apart version jobs stranger world
      ((λ own. tt, λ other. tt), ((λ own. tt, λ other. tt), tt)) (sym same_view)

-- What is left of the two jobs is the second.
purged :
    select (is_for codecs tenant) jobs
    ≡ record { clock = clock; turns = []; request = request } ∷ []
unfolding codes select is_for find_route routes str_eq tenant_id
purged = refl
