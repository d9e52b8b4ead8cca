-- ===== src/Tests/Once.antt =====
-- A creation that is sent twice, with procedures that tell a replay by the event that is there.
use apme_api.Prelude.{
  ◌≡◌, ◌≢◌, refl, arith, inl, inr, Bool, true, false, Bool-cases, ◌==◌, [], ◌∷◌, Memᴰ, mem-map, any,
  any-eq-false_iff, All, All-mem, ok, if◌then◌else◌,
}
use apme_api.Prelude.Int.{ℤ}
use apme_api.Database.{World, EventRow, Tables, Query, MutationRow, Pool}
use apme_api.Prelude.{select, collect_map}
use apme_api.Text.{
  codes, str_eq, len, is_control, trim, trim_start, trim_end, is_whitespace, strip_prefix,
}
use apme_api.Database.{lift, continue, finish, raise_as, read, execute}
use apme_api.Auth.Session.{
  is_exactly, has_expired, is_premature, is_refused, validate_active_session,
}
use apme_api.Auth.Service.{bearer, accept_outcome, authenticate_with_scopes}
use apme_api.Cases.Names.{parse_role, parse_status, parse_retention, retention_name, status_name}
use apme_api.Cases.Rows.{case_from_row, document_of_columns}
use apme_api.Cases.Guards.{canonical_hash, validate_idempotency_key, require_mutator}
use apme_api.Cases.Queries.{
  select_context, join_memberships, member_of, case_select_one, is_live, select_event,
}
use apme_api.Cases.Lookup.{tenant_context}
use apme_api.Cases.Mutations.{prepare_create, mutation_result}
use apme_api.Api.Access.{tenant_id, idempotency_key, authorized_tenant_with_scopes}
use apme_api.Api.Handlers.{create_case, publish_unless_replayed, publish_mutation}
use apme_api.Server.Router.{routes, respond, respond_all, find_route, endpoint_answer}
use apme_api.Cases.Lookup
use apme_api.Cases.Mutations
use apme_api.Cases.Mutations.Fresh.{Stored, AllStored, IsAppending, IsLedger}
use apme_api.Api.Access.{AppState}
use apme_api.Server.Router.Purge.{Job, serve_job}
use apme_api.Server.Router.Once.{Distinct, ids_of, after_jobs, published_once, never_published}
use apme_api.Tests.Fixture.{lib, codecs, auth, clock, world, with_event, mutation_row}
use apme_api.Tests.Server.{version, request}

abbrev is_there : Tables → Bool
is_there t = any (λ e. e.event_id == 5) t.events

abbrev note_event : Query MutationRow
note_event t =
    if is_there t
    then (ok (record mutation_row { replayed = true }), t)
    else (ok mutation_row, with_event t)

not_stored : (t : Tables) → is_there t ≡ false → ¬ Stored 5 t
not_stored t h m =
    let (e, n, same) = mem-map (λ (r : EventRow). r.event_id) t.events m in
    let other = All-mem _ t.events ((any-eq-false_iff _ t.events).0 h) n in ground arith

note_event-IsAppending : IsAppending note_event
note_event-IsAppending = record {
  keeps = λ id t m. elim (Bool-cases (is_there t)) [ inl e ↦ rw e m | inr e ↦ rw e (Memᴰ.tail m) ];
  fresh = λ t row h fresh. elim (Bool-cases (is_there t)) [
    | inl e ↦
        let made : record mutation_row { replayed = true } ≡ row = cc (rw e at h) in ground arith
    | inr e ↦ let made : mutation_row ≡ row = cc (rw e at h) in rw (← made) (not_stored t e)
  ];
}

abbrev pool : Pool
pool = record {
  migration = λ t. (ok tt, t);
  create_case = λ args. note_event;
  transition_case = λ args. note_event;
  rotate_case_object = λ args. note_event;
  append_audit = λ args t. (ok tt, t);
  apply_retention = λ now actor t. (ok (ℤ.pos 0), t);
  verify_case_audit = λ id t. (ok true, t);
  verify_tenant_audit = λ id t. (ok true, t);
}

ledger : IsLedger pool
ledger = record {
  create = λ args. note_event-IsAppending;
  transition = λ args. note_event-IsAppending;
  rotate = λ args. note_event-IsAppending;
  audit = λ args id t m. m;
}

abbrev state : AppState
state = record { auth = auth; cases = record { pool = pool } }

abbrev job : Job
job = record { clock = clock; turns = []; request = request }

abbrev untold : World
untold = record world { tables = with_event world.tables }

once_example :
    let after = after_jobs lib codecs state version (job ∷ job ∷ []) world in
    Distinct (ids_of after.published) × AllStored (ids_of after.published) after.tables
once_example =
    published_once lib codecs state version ledger (job ∷ job ∷ []) world (tt, (tt, tt)) refl

told : ids_of (after_jobs lib codecs state version (job ∷ job ∷ []) world).published ≡ 5 ∷ []
unfolding after_jobs serve_job respond_all respond find_route routes endpoint_answer create_case
    Mutations.create_case prepare_create require_mutator continue raise_as read lift finish execute
    str_eq codes any len is_control select collect_map authorized_tenant_with_scopes
    authenticate_with_scopes accept_outcome bearer trim trim_start trim_end is_whitespace
    strip_prefix is_exactly has_expired is_premature is_refused validate_active_session tenant_id
    tenant_context select_context join_memberships member_of parse_role idempotency_key
    publish_unless_replayed publish_mutation validate_idempotency_key canonical_hash mutation_result
    Lookup.get_case case_select_one is_live select_event case_from_row parse_status parse_retention
    document_of_columns retention_name status_name
told = refl

-- The event is stored, but the reads after the statement failed: the creation is repeated in vain.
never_example :
    All
      (λ told. 5 ≢ told)
      (ids_of (after_jobs lib codecs state version (job ∷ job ∷ []) untold).published)
never_example =
    never_published lib codecs state version ledger 5 (job ∷ job ∷ []) untold (tt, (tt, tt))
      (Memᴰ.head refl) tt tt tt
