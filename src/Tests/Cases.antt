-- ===== src/Tests/Cases.antt =====
-- The case service on concrete data.
use mathlib.Core.List.{Perm}
use apme_api.Prelude.{◌≡◌, refl, ◌↔◌, none, [], ◌∷◌, Memᴰ, map, ok, err, any, collect_map, select}
use apme_api.Text.{codes, is_control, len, str_eq}
use apme_api.Domain.{Bytes, TenantContext, PersistedCase, viewer}
use apme_api.Database.{
  MutationRow, World, database, current, execute, lost_request, continue, finish, lift, raise_as,
  read,
}
use apme_api.Cases.Errors.{storage, message_of, map_sql_error}
use apme_api.Cases.Errors.Markers.{IsReading, markers, map_sql_error-IsReading}
use apme_api.Cases.Names.{parse_status, status_name, parse_role, parse_retention, retention_name}
use apme_api.Cases.Rows.{case_from_row, document_of_columns}
use apme_api.Cases.Rows.RoundTrip.{row_of_case, case_from_row_iff}
use apme_api.Cases.Guards.{
  validate_idempotency_key, canonical_hash, require_mutator, require_administrator, require_version,
}
use apme_api.Cases.Guards.Keys.{IsKey, validate_idempotency_key_iff}
use apme_api.Cases.Queries.{
  select_context, case_select_list, insert_row, is_live, join_memberships, member_of, order_rows,
  case_select_one, select_event,
}
use apme_api.Cases.Queries.Order.{IsOrdered}
use apme_api.Cases.Lookup.{tenant_context, list_cases, get_case}
use apme_api.Cases.Lookup.Isolation.{list_cases_lem}
use apme_api.Cases.Mutations.{
  prepare_create, create_args, create_case, prepare_transition, transition_args, transition_case,
  prepare_rotate, rotate_args, rotate_encrypted_object, mutation_result,
}
use apme_api.Cases.Mutations.Requests.{IsCreation, IsTransition, IsRotation}
use apme_api.Cases.Mutations.Outcomes.{
  IsAnswer, create_case_sound, transition_case_sound, rotate_encrypted_object_sound,
}
use apme_api.Tests.Fixture.{
  lib, cases, subject, tenant, context, world, mutated, result, stored_row, stored_case, creation,
  transition, rotation,
}

map_sql_error_example :
    IsReading
      (codes "APME_STALE_VERSION: 3")
      (storage (database (codes "APME_STALE_VERSION: 3")))
      markers
      (map_sql_error (database (codes "APME_STALE_VERSION: 3")))
unfolding message_of
map_sql_error_example = map_sql_error-IsReading (database (codes "APME_STALE_VERSION: 3"))

case_from_row_example :
    (case_from_row (stored_row tenant 2) ≡ ok (stored_case 2))
    ↔ (stored_row tenant 2 ≡ row_of_case (stored_case 2))
case_from_row_example = case_from_row_iff (stored_row tenant 2) (stored_case 2)

validate_idempotency_key_example :
    (validate_idempotency_key (codes "k") ≡ ok tt) ↔ IsKey (codes "k")
validate_idempotency_key_example = validate_idempotency_key_iff (codes "k")

admitted : tenant_context subject tenant world ≡ (ok context, world)
unfolding tenant_context continue raise_as read lift select_context join_memberships select
    member_of str_eq codes parse_role finish
admitted = refl

listed : list_cases context world ≡ (ok (stored_case 2 ∷ []), world)
unfolding list_cases continue raise_as read lift collect_map case_select_list order_rows select
    is_live insert_row case_from_row parse_status str_eq codes parse_retention document_of_columns
listed = refl

list_cases_example :
    IsOrdered (map row_of_case (stored_case 2 ∷ []))
    × Perm (map row_of_case (stored_case 2 ∷ [])) (select (is_live tenant) (current world).cases)
    × ((c : PersistedCase)
        → Memᴰ c (stored_case 2 ∷ []) ↔ (
            Memᴰ (row_of_case c) (current world).cases
            × (c.tenant_id ≡ context.tenant_id)
            × (c.tombstoned_at ≡ none)))
list_cases_example = list_cases_lem context world world (stored_case 2 ∷ []) listed

created : create_case lib cases context subject (codes "k") creation 50 world ≡ (ok result, mutated)
unfolding create_case prepare_create require_mutator continue raise_as read lift finish execute
    str_eq codes any len is_control select collect_map validate_idempotency_key canonical_hash
    mutation_result get_case case_select_one is_live select_event case_from_row parse_status
    parse_retention document_of_columns retention_name status_name
created = refl

create_case_example :
    (hash : Bytes) × (row : MutationRow) × (u : World) × IsCreation lib context
      (codes "k")
      hash
      creation
      50
    × (execute
          (cases.pool.create_case (create_args context subject (codes "k") creation hash 50))
          world
        ≡ (ok row, u))
    × IsAnswer context row result
create_case_example =
    create_case_sound lib cases context subject (codes "k") creation 50 world mutated result created

moved :
    transition_case lib cases context subject 2 (codes "k") transition 50 world
    ≡ (ok result, mutated)
unfolding transition_case prepare_transition require_mutator require_version continue raise_as read
    lift finish execute str_eq codes any len is_control select collect_map validate_idempotency_key
    canonical_hash mutation_result get_case case_select_one is_live select_event case_from_row
    parse_status parse_retention document_of_columns retention_name status_name
moved = refl

transition_case_example :
    (hash : Bytes) × (row : MutationRow) × (u : World) × IsTransition lib context
      (codes "k")
      hash
      2
      transition
    × (execute
          (cases.pool.transition_case
            (transition_args context subject 2 (codes "k") transition hash 50))
          world
        ≡ (ok row, u))
    × IsAnswer context row result
transition_case_example =
    transition_case_sound lib cases context subject (codes "k") 2 transition 50 world mutated result
      moved

rotated :
    rotate_encrypted_object lib cases context subject 2 (codes "k") rotation 50 world
    ≡ (ok result, mutated)
unfolding rotate_encrypted_object prepare_rotate require_administrator require_version continue
    raise_as read lift finish execute str_eq codes any len is_control select collect_map
    validate_idempotency_key canonical_hash mutation_result get_case case_select_one is_live
    select_event case_from_row parse_status parse_retention document_of_columns retention_name
    status_name
rotated = refl

rotate_encrypted_object_example :
    (hash : Bytes) × (row : MutationRow) × (u : World) × IsRotation lib context
      (codes "k")
      hash
      2
      rotation
    × (execute
          (cases.pool.rotate_case_object
            (rotate_args context subject 2 (codes "k") rotation hash 50))
          world
        ≡ (ok row, u))
    × IsAnswer context row result
rotate_encrypted_object_example =
    rotate_encrypted_object_sound lib cases context subject (codes "k") 2 rotation 50 world mutated
      result rotated

abbrev reader : TenantContext
reader = record { tenant_id = tenant; organization_id = 70; role = viewer }

-- The connection is lost before the procedure runs.
abbrev cut_off : World
cut_off = record world {
  schedule = record { others = λ t. t; link = lost_request (database (codes "gone")) } ∷ [];
}

prepared : prepare_create lib context (codes "k") creation 50 ≡ ok (0 ∷ 1 ∷ [])
unfolding prepare_create require_mutator validate_idempotency_key codes len any is_control
    canonical_hash
prepared = refl

lost :
    execute
      (cases.pool.create_case (create_args context subject (codes "k") creation (0 ∷ 1 ∷ []) 50))
      cut_off
    ≡ (err (database (codes "gone")), world)
unfolding execute
lost = refl
