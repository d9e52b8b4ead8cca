-- ===== src/Tests/Api.antt =====
-- The interface on concrete requests.
use apme_api.Prelude.{
  ℕ, ◌≡◌, refl, ◌↔◌, ◌⊎◌, ◌≢◌, Bool, true, false, none, some, List, [], ◌∷◌, Memᴰ, map, ok, err,
  any, select, collect_map, All, Pairs,
}
use apme_api.Text.{
  codes, str_eq, len, is_control, trim, trim_start, trim_end, is_whitespace, strip_prefix,
}
use apme_api.Domain.{VerifiedSubject, TenantContext, CaseSubscription}
use apme_api.Database.{World, TenantEvent, continue, raise_as, read, lift, finish, execute}
use apme_api.Auth.Session.{
  unauthorized, is_exactly, has_expired, is_premature, is_refused, validate_active_session,
}
use apme_api.Auth.Service.{bearer, accept_outcome, authenticate, authenticate_with_scopes}
use apme_api.Cases.Names.{parse_role, parse_status, parse_retention, retention_name, status_name}
use apme_api.Cases.Rows.{case_from_row, document_of_columns}
use apme_api.Cases.Rows.RoundTrip.{row_of_case}
use apme_api.Cases.Guards.{
  canonical_hash, validate_idempotency_key, require_mutator, require_administrator, require_version,
}
use apme_api.Cases.Queries.{
  select_context, join_memberships, member_of, case_select_list, order_rows, insert_row,
  case_select_one, is_live, select_event,
}
use apme_api.Cases.Queries.Order.{IsOrdered}
use apme_api.Cases.Lookup.{access_args, record_access, tenant_context}
use apme_api.Cases.Lookup
use apme_api.Cases.Mutations.{prepare_create, prepare_transition, prepare_rotate, mutation_result}
use apme_api.Cases.Mutations
use apme_api.Api.Errors.{authentication}
use apme_api.Api.Origins.{candidates, parse_allowed_origins}
use apme_api.Api.Origins.Accepted.{IsOrigin, parse_allowed_origins_iff}
use apme_api.Api.Access.{
  tenant_id, idempotency_key, authorized_tenant, authorized_tenant_with_scopes,
}
use apme_api.Api.Handlers.{
  publish_mutation, publish_unless_replayed, list_cases, get_case, create_case, transition_case,
  rotate_encrypted_object,
}
use apme_api.Api.Handlers.Publication.{IsServed}
use apme_api.Api.Handlers.Served.{
  create_case-IsServed, transition_case-IsServed, rotate_encrypted_object-IsServed,
}
use apme_api.Api.Handlers.Reads.{IsReader, get_case-audited, list_cases-IsOwn}
use apme_api.Api.Sockets.{
  WebSocketQuery, websocket, subscription_allows, Arrival, delivered, close, text, react,
  socket_loop,
}
use apme_api.Tests.Fixture.{
  lib, codecs, state, clock, headers, tenant, world, audited, published, result, told, stored_case,
  creation, transition, rotation,
}

created : create_case lib codecs state clock headers creation world ≡ (ok (201, result), published)
unfolding create_case Mutations.create_case prepare_create require_mutator continue raise_as read
    lift finish execute str_eq codes any len is_control select collect_map
    authorized_tenant_with_scopes authenticate_with_scopes accept_outcome bearer trim trim_start
    trim_end is_whitespace strip_prefix is_exactly has_expired is_premature is_refused
    validate_active_session tenant_id tenant_context select_context join_memberships member_of
    parse_role idempotency_key publish_unless_replayed publish_mutation validate_idempotency_key
    canonical_hash mutation_result Lookup.get_case case_select_one is_live select_event
    case_from_row parse_status parse_retention document_of_columns retention_name status_name
created = refl

create_case-IsServed_example :
    let status : ℕ = 201 in
    IsServed codecs state clock.seconds headers
      (λ s c k. Mutations.create_case lib state.cases c s k creation clock.now)
      world
      published
      result
    × (((status ≡ 200) × (result.replayed ≡ true)) ⊎ ((status ≡ 201) × (result.replayed ≡ false)))
create_case-IsServed_example =
    create_case-IsServed lib codecs state clock headers creation world published 201 result created

moved : transition_case lib codecs state clock 2 headers transition world ≡ (ok result, published)
unfolding transition_case Mutations.transition_case prepare_transition require_mutator
    require_version continue raise_as read lift finish execute str_eq codes any len is_control
    select collect_map authorized_tenant_with_scopes authenticate_with_scopes accept_outcome bearer
    trim trim_start trim_end is_whitespace strip_prefix is_exactly has_expired is_premature
    is_refused validate_active_session tenant_id tenant_context select_context join_memberships
    member_of parse_role idempotency_key publish_unless_replayed publish_mutation
    validate_idempotency_key canonical_hash mutation_result Lookup.get_case case_select_one is_live
    select_event case_from_row parse_status parse_retention document_of_columns retention_name
    status_name
moved = refl

transition_case-IsServed_example :
    IsServed codecs state clock.seconds headers
      (λ s c k. Mutations.transition_case lib state.cases c s 2 k transition clock.now)
      world
      published
      result
transition_case-IsServed_example =
    transition_case-IsServed lib codecs state clock headers 2 transition world published result
      moved

rotated :
    rotate_encrypted_object lib codecs state clock 2 headers rotation world ≡ (ok result, published)
unfolding rotate_encrypted_object Mutations.rotate_encrypted_object prepare_rotate
    require_administrator require_version continue raise_as read lift finish execute str_eq codes
    any len is_control select collect_map authorized_tenant_with_scopes authenticate_with_scopes
    accept_outcome bearer trim trim_start trim_end is_whitespace strip_prefix is_exactly has_expired
    is_premature is_refused validate_active_session tenant_id tenant_context select_context
    join_memberships member_of parse_role idempotency_key publish_unless_replayed publish_mutation
    validate_idempotency_key canonical_hash mutation_result Lookup.get_case case_select_one is_live
    select_event case_from_row parse_status parse_retention document_of_columns retention_name
    status_name
rotated = refl

rotate_encrypted_object-IsServed_example :
    IsServed codecs state clock.seconds headers
      (λ s c k. Mutations.rotate_encrypted_object lib state.cases c s 2 k rotation clock.now)
      world
      published
      result
rotate_encrypted_object-IsServed_example =
    rotate_encrypted_object-IsServed lib codecs state clock headers 2 rotation world published
      result rotated

refused :
    create_case lib codecs state clock (λ name. none) creation world
    ≡ (err (authentication unauthorized), world)
unfolding create_case continue raise_as read lift finish execute str_eq codes any len is_control
    select collect_map authorized_tenant_with_scopes authenticate_with_scopes accept_outcome bearer
    trim trim_start trim_end is_whitespace strip_prefix is_exactly has_expired is_premature
    is_refused validate_active_session tenant_id tenant_context select_context join_memberships
    member_of parse_role
refused = refl

returned : get_case lib codecs state clock 2 headers world ≡ (ok (stored_case 2), audited)
unfolding get_case record_access authorized_tenant continue raise_as read lift finish execute str_eq
    codes any len is_control select collect_map authorized_tenant_with_scopes
    authenticate_with_scopes accept_outcome bearer trim trim_start trim_end is_whitespace
    strip_prefix is_exactly has_expired is_premature is_refused validate_active_session tenant_id
    tenant_context select_context join_memberships member_of parse_role Lookup.get_case
    case_select_one is_live case_from_row parse_status parse_retention document_of_columns
returned = refl

get_case-audited_example :
    (who : VerifiedSubject) × (ctx : TenantContext) × IsReader codecs state clock headers who ctx
      world
    × ((stored_case 2).tenant_id ≡ ctx.tenant_id)
    × ((stored_case 2).id ≡ 2)
    × ((stored_case 2).tombstoned_at ≡ none)
    × ((u : World) × (execute
            (state.cases.pool.append_audit (access_args ctx who (stored_case 2).id clock.now))
            u
          ≡ (ok tt, audited)))
get_case-audited_example =
    get_case-audited lib codecs state clock headers 2 world audited (stored_case 2) returned

listed : list_cases lib codecs state clock headers world ≡ (ok (stored_case 2 ∷ []), world)
unfolding list_cases authorized_tenant continue raise_as read lift finish execute str_eq codes any
    len is_control select collect_map authorized_tenant_with_scopes authenticate_with_scopes
    accept_outcome bearer trim trim_start trim_end is_whitespace strip_prefix is_exactly has_expired
    is_premature is_refused validate_active_session tenant_id tenant_context select_context
    join_memberships member_of parse_role Lookup.list_cases case_select_list order_rows insert_row
    is_live case_from_row parse_status parse_retention document_of_columns
listed = refl

list_cases-IsOwn_example :
    (who : VerifiedSubject) × (ctx : TenantContext) × IsReader codecs state clock headers who ctx
      world
    × IsOrdered (map row_of_case (stored_case 2 ∷ []))
    × All (λ c. (c.tenant_id ≡ ctx.tenant_id) × (c.tombstoned_at ≡ none)) (stored_case 2 ∷ [])
list_cases-IsOwn_example =
    list_cases-IsOwn lib codecs state clock headers world world (stored_case 2 ∷ []) listed

parse_allowed_origins_example :
    (parse_allowed_origins codecs (codes "https://a.example, ")
      ≡ ok (codes "https://a.example" ∷ []))
    ↔ (((codes "https://a.example" ∷ []) ≢ [])
        × Pairs
            (IsOrigin codecs)
            (candidates (codes "https://a.example, "))
            (codes "https://a.example" ∷ []))
parse_allowed_origins_example =
    parse_allowed_origins_iff codecs (codes "https://a.example, ") (codes "https://a.example" ∷ [])

abbrev query : WebSocketQuery
query = record { tenant_id = tenant; case_id = some 2 }

abbrev subscription : CaseSubscription
subscription = record { tenant_id = tenant; case_id = some 2 }

abbrev foreign : TenantEvent
foreign = record told { tenant_id = 8 }

abbrev arrivals : List (Arrival × Bool)
arrivals = (delivered foreign, true) ∷ (delivered told, true) ∷ (close, true) ∷ []

upgraded : websocket codecs state query headers 50 world ≡ (ok subscription, world)
unfolding websocket authenticate continue raise_as read lift finish execute str_eq codes any len
    is_control select collect_map authorized_tenant_with_scopes authenticate_with_scopes
    accept_outcome bearer trim trim_start trim_end is_whitespace strip_prefix is_exactly has_expired
    is_premature is_refused validate_active_session tenant_id tenant_context select_context
    join_memberships member_of parse_role
upgraded = refl

sent : Memᴰ (text (codes "m")) (socket_loop (λ event. some (codes "m")) subscription arrivals).0
unfolding socket_loop react subscription_allows
sent = Memᴰ.head refl
