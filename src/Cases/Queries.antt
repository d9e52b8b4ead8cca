-- ===== src/Cases/Queries.antt =====
-- The SELECT statements of src/cases.rs, on the tables.
-- A join or a select without `order by` is taken in the order of the tables' lists.
pub mod Order
pub mod Join
pub mod Views
pub mod Stable
use apme_api.Prelude.{
  ℕ, Bool, true, false, ◌&&◌, ◌||◌, Option, none, some, List, [], ◌∷◌, ◌++◌, map, Result, ok, err,
  ok_or, is_none, ltb, ◌==◌, leb, select, first, length, if◌then◌else◌,
}
use apme_api.Text.{Str, str_eq}
use apme_api.Domain.{Uuid}
use apme_api.Database.{SqlError, row_not_found, TenantRow, MembershipRow, CaseRow, EventRow, Tables}

-- `t.organization_id, m.role`
pub record ContextRow : Type 0 where
  pub organization_id : Uuid
  pub role : Str

unfoldable pub member_of : Uuid → Str → MembershipRow → Bool
member_of tenant_id user m = m.tenant_id == tenant_id && (str_eq m.shared_user_id user && m.active)

abbrev pub with_tenant : TenantRow → List MembershipRow → List ContextRow
with_tenant t = map (λ m. record { organization_id = t.organization_id; role = m.role })

-- The join of `tenant_context`.
unfoldable pub join_memberships : Uuid → Str → List MembershipRow → List TenantRow → List ContextRow
join_memberships tenant_id user memberships [] = []
join_memberships tenant_id user memberships (t ∷ tenants) =
    let rest = join_memberships tenant_id user memberships tenants in
    if t.id == tenant_id
    then with_tenant t (select (member_of t.id user) memberships) ++ rest
    else rest

unfoldable pub select_context : Uuid → Str → Tables → Option ContextRow
select_context tenant_id user t = first (join_memberships tenant_id user t.memberships t.tenants)

-- `tenant_id = $1 and tombstoned_at is null`
unfoldable pub is_live : Uuid → CaseRow → Bool
is_live tenant_id row = row.tenant_id == tenant_id && is_none row.tombstoned_at

-- `order by created_at desc, id`
unfoldable pub precedes : CaseRow → CaseRow → Bool
precedes r s = ltb s.created_at r.created_at || (r.created_at == s.created_at && leb r.id s.id)

unfoldable pub insert_row : CaseRow → List CaseRow → List CaseRow
insert_row r [] = r ∷ []
insert_row r (s ∷ rows) =
    let rest = insert_row r rows in if precedes r s then r ∷ s ∷ rows else s ∷ rest

unfoldable pub order_rows : List CaseRow → List CaseRow
order_rows [] = []
order_rows (r ∷ rows) = insert_row r (order_rows rows)

-- `CASE_SELECT_LIST`
unfoldable pub case_select_list : Uuid → Tables → List CaseRow
case_select_list tenant_id t = order_rows (select (is_live tenant_id) t.cases)

-- `CASE_SELECT_ONE`
unfoldable pub case_select_one : Uuid → Uuid → Tables → Option CaseRow
case_select_one tenant_id id t =
    first (select (λ row. is_live tenant_id row && row.id == id) t.cases)

-- The event of `mutation_result`, by `fetch_one`.
unfoldable pub select_event : Uuid → Uuid → Tables → Result SqlError EventRow
select_event tenant_id event_id t =
    ok_or (first (select (λ e. e.tenant_id == tenant_id && e.event_id == event_id) t.events))
      row_not_found
