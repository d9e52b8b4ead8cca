-- ===== src/Cases/Queries/Views.antt =====
-- The queries for a tenant look at nothing but its rows.
use apme_api.Prelude.{
  ◌≡◌, refl, sym, ap, ◌∙◌, inl, inr, true, List, [], ◌∷◌, ◌++◌, select, select-select, first, ok_or,
  ◌==◌, ◌&&◌, arith, Bool-cases,
}
use apme_api.Text.{Str}
use apme_api.Domain.{Uuid, Bytes}
use apme_api.Database.{row_not_found, TenantRow, MembershipRow, CaseRow, EventRow, Tables}
use apme_api.Database.Views.{TenantView, view}
use apme_api.Cases.Queries.{
  member_of, with_tenant, join_memberships, select_context, is_live, order_rows, case_select_list,
  case_select_one, select_event,
}

members_of_tenant :
    (tenant : Uuid) (user : Str) (t : TenantRow) (memberships : List MembershipRow)
    → (t.id == tenant) ≡ true
    → select (member_of t.id user) (select (λ m. m.tenant_id == tenant) memberships)
      ≡ select (member_of t.id user) memberships
unfolding member_of
members_of_tenant tenant user t memberships e =
    select-select (member_of t.id user) (λ m. m.tenant_id == tenant) memberships λ m h. ground arith

join-select :
    (tenant : Uuid) (user : Str) (memberships : List MembershipRow) (tenants : List TenantRow)
    → join_memberships tenant user
        (select (λ m. m.tenant_id == tenant) memberships)
        (select (λ t. t.id == tenant) tenants)
      ≡ join_memberships tenant user memberships tenants
unfolding join_memberships select
join-select tenant user memberships [] = refl
join-select tenant user memberships (t ∷ tenants) = elim (Bool-cases (t.id == tenant)) [
  | inr e ↦ rw e (join-select tenant user memberships tenants)
  | inl e ↦
      rw (e, e, members_of_tenant tenant user t memberships e)
        (ap (λ rows. with_tenant t (select (member_of t.id user) memberships) ++ rows)
          (join-select tenant user memberships tenants))
]

module _ (part : Uuid → Bytes → Bytes) (tenant : Uuid) (a b : Tables)
    (same : view part tenant a ≡ view part tenant b) where
  pub select_context-view :
      (user : Str) → select_context tenant user a ≡ select_context tenant user b
  unfolding select_context
  select_context-view user = ap first (
      sym (join-select tenant user a.memberships a.tenants)
      ∙ ap (λ (v : TenantView). join_memberships tenant user v.memberships v.tenants) same
      ∙ join-select tenant user b.memberships b.tenants)

  pub case_select_list-view : case_select_list tenant a ≡ case_select_list tenant b
  unfolding case_select_list is_live
  case_select_list-view = ap order_rows (
      sym (select-select (is_live tenant) (λ r. r.tenant_id == tenant) a.cases λ r h. ground arith)
      ∙ ap (λ (v : TenantView). select (is_live tenant) v.cases) same
      ∙ select-select (is_live tenant) (λ r. r.tenant_id == tenant) b.cases λ r h. ground arith)

  pub case_select_one-view : (id : Uuid) → case_select_one tenant id a ≡ case_select_one tenant id b
  unfolding case_select_one is_live
  case_select_one-view id =
      let wanted = λ (r : CaseRow). is_live tenant r && r.id == id in
      ap first (
        sym (select-select wanted (λ r. r.tenant_id == tenant) a.cases λ r h. ground arith)
        ∙ ap (λ (v : TenantView). select wanted v.cases) same
        ∙ select-select wanted (λ r. r.tenant_id == tenant) b.cases λ r h. ground arith)

  pub select_event-view : (id : Uuid) → select_event tenant id a ≡ select_event tenant id b
  unfolding select_event
  select_event-view id =
      let wanted = λ (e : EventRow). e.tenant_id == tenant && e.event_id == id in
      ap (λ rows. ok_or (first rows) row_not_found)
        (sym (select-select wanted (λ r. r.tenant_id == tenant) a.events λ r h. ground arith)
          ∙ ap (λ (v : TenantView). select wanted v.events) same
          ∙ select-select wanted (λ r. r.tenant_id == tenant) b.events λ r h. ground arith)
