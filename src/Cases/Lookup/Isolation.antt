-- ===== src/Cases/Lookup/Isolation.antt =====
-- What the reads return belongs to the tenant of the context, whatever other sessions do.
use mathlib.Core.List.{Perm}
use apme_api.Prelude.{
  select, ◌≡◌, refl, sym, ap, inl, inr, none, some, List, [], ◌∷◌, Memᴰ, map, ok, arith,
  Result-cases, collect_map, ◌↔◌, map-mem, mem-map,
}
use apme_api.Domain.{Uuid, VerifiedSubject, TenantContext, PersistedCase}
use apme_api.Database.{CaseRow, Tables, World, current}
use apme_api.Database.Frames.{continue-eq-ok, finish-eq-ok, raise_as-eq-ok, lift-eq-ok, read-eq-ok}
use apme_api.Cases.Names.{parse_role}
use apme_api.Cases.Rows.{case_from_row}
use apme_api.Cases.Rows.RoundTrip.{row_of_case, case_from_row_iff, row_of_case-injective}
use apme_api.Cases.Queries.{is_live, ContextRow, select_context, case_select_list, case_select_one}
use apme_api.Cases.Queries.Order.{
  IsOrdered, case_select_list_lem, case_select_list-perm, case_select_one_sound,
}
use apme_api.Cases.Queries.Join.{IsMember, select_context_sound}
use apme_api.Cases.Lookup.{tenant_context, list_cases, get_case}

collect_cases :
    (rows : List CaseRow) (cases : List PersistedCase)
    → collect_map case_from_row rows ≡ ok cases
    → rows ≡ map row_of_case cases
unfolding collect_map
collect_cases [] [] h = refl
collect_cases [] (c ∷ cases) h = cc
collect_cases (r ∷ rows) cases h = elim (Result-cases (case_from_row r)) [
  | inl (f, e) ↦ cc (rw e at h)
  | inr (c, e) ↦ elim (Result-cases (collect_map case_from_row rows)) [
    | inl (f, e') ↦ cc (rw (e, e') at h)
    | inr (cs, e') ↦
        let whole : c ∷ cs ≡ cases = cc (rw (e, e') at h) in
        rw (← whole, (case_from_row_iff r c).0 e, collect_cases rows cs e')
  ]
]

listed_case :
    (cases : List PersistedCase) (c : PersistedCase)
    → Memᴰ (row_of_case c) (map row_of_case cases)
    → Memᴰ c cases
listed_case cases c m =
    let (d, n, e) = mem-map row_of_case cases m in rw (row_of_case-injective c d e) n

listing :
    (tenant_id : Uuid) (t : Tables) (cases : List PersistedCase)
    → map row_of_case cases ≡ case_select_list tenant_id t
    → IsOrdered (map row_of_case cases)
      × ((c : PersistedCase)
          → Memᴰ c cases
            ↔ (Memᴰ (row_of_case c) t.cases × (c.tenant_id ≡ tenant_id) × (c.tombstoned_at ≡ none)))
unfolding row_of_case
listing tenant_id t cases e =
    let (ordered, members) = case_select_list_lem tenant_id t in
    (
      rw e ordered,
      λ c. (
        λ m.
            let n : Memᴰ (row_of_case c) (map row_of_case cases) = map-mem row_of_case cases m in
            (members (row_of_case c)).0 (rw e at n),
        λ k. listed_case cases c (rw e ((members (row_of_case c)).1 k)),
      ),
    )

-- A context is granted only for the tenant that was asked for, to a user with an active membership
-- of that tenant in the tables at that moment; its organization is that tenant's, and its role is
-- the one that the membership spells.
pub tenant_context_sound :
    (subject : VerifiedSubject) (tenant_id : Uuid) (w w' : World) (context : TenantContext)
    → tenant_context subject tenant_id w ≡ (ok context, w')
    → (row : ContextRow) × IsMember tenant_id subject.shared_user_id
        (current w).memberships
        (current w).tenants
        row
      × (context.tenant_id ≡ tenant_id)
      × (context.organization_id ≡ row.organization_id)
      × (parse_role row.role ≡ ok context.role)
unfolding tenant_context
tenant_context_sound subject tenant_id w w' context h =
    let (found, u, p, q) = continue-eq-ok _ _ h in
    let seen = read-eq-ok _ w (raise_as-eq-ok _ _ w p) in
    let (row, u1, p1, q1) = continue-eq-ok _ _ q in
    let (role, u2, p2, q2) = continue-eq-ok _ _ q1 in
    let some_row : select_context tenant_id subject.shared_user_id (current w) ≡ some row =
      ground (arith, lift-eq-ok _ u p1) in
    let granted = (finish-eq-ok _ u2 q2).0 in
    (
      row,
      select_context_sound tenant_id subject.shared_user_id (current w) some_row,
      ap (λ (c : TenantContext). c.tenant_id) (sym granted),
      ap (λ (c : TenantContext). c.organization_id) (sym granted),
      ground (arith, lift-eq-ok _ u1 p2),
    )

-- A listing that succeeds is in the order of the rows; its rows are, up to their order, those that the
-- `where` clause selects of the tables that the statement met; and it holds a case exactly where these
-- tables hold its row, the row is the context's tenant's, and it has no tombstone.
pub list_cases_lem :
    (context : TenantContext) (w w' : World) (cases : List PersistedCase)
    → list_cases context w ≡ (ok cases, w')
    → IsOrdered (map row_of_case cases)
      × Perm (map row_of_case cases) (select (is_live context.tenant_id) (current w).cases)
      × ((c : PersistedCase)
          → Memᴰ c cases ↔ (
              Memᴰ (row_of_case c) (current w).cases
              × (c.tenant_id ≡ context.tenant_id)
              × (c.tombstoned_at ≡ none)))
unfolding list_cases
list_cases_lem context w w' cases h =
    let (rows, u, p, q) = continue-eq-ok _ _ h in
    let selected = read-eq-ok _ w (raise_as-eq-ok _ _ w p) in
    let read_rows = collect_cases rows cases (lift-eq-ok _ u q).0 in
    let listed : map row_of_case cases ≡ case_select_list context.tenant_id (current w) =
      cc (selected, read_rows) in
    let (ordered, members) = listing context.tenant_id (current w) cases listed in
    (ordered, rw listed (case_select_list-perm context.tenant_id (current w)), members)

-- A case that is returned is stored under the id that was asked for and the context's tenant, without
-- a tombstone, in the tables that the statement met.
pub get_case_sound :
    (context : TenantContext) (case_id : Uuid) (w w' : World) (case : PersistedCase)
    → get_case context case_id w ≡ (ok case, w')
    → Memᴰ (row_of_case case) (current w).cases
      × (case.tenant_id ≡ context.tenant_id)
      × (case.id ≡ case_id)
      × (case.tombstoned_at ≡ none)
unfolding get_case row_of_case
get_case_sound context case_id w w' case h =
    let (found, u, p, q) = continue-eq-ok _ _ h in
    let seen = read-eq-ok _ w (raise_as-eq-ok _ _ w p) in
    let (row, u1, p1, q1) = continue-eq-ok _ _ q in
    let one : case_select_one context.tenant_id case_id (current w) ≡ some row =
      ground (arith, lift-eq-ok _ u p1) in
    let same = (case_from_row_iff row case).0 (lift-eq-ok _ u1 q1).0 in
    let stored : Memᴰ row (current w).cases
        × (row.tenant_id ≡ context.tenant_id)
        × (row.id ≡ case_id)
        × (row.tombstoned_at ≡ none) =
      case_select_one_sound context.tenant_id case_id (current w) one in
    rw same at stored
