-- ===== src/Cases/Queries/Join.antt =====
-- The membership that the join of `tenant_context` finds.
use apme_api.Prelude.{
  ◌≡◌, refl, ◌↔◌, inl, inr, true, none, some, List, [], ◌∷◌, Memᴰ, arith, select, Bool-cases,
  mem_cases, mem-select, mem-first, not-mem_of_first, mem-map, map-mem, mem-append, ◌==◌, ap, ◌∙◌,
}
use apme_api.Text.{Str}
use apme_api.Text.Laws.{str_eq_iff}
use apme_api.Domain.{Uuid}
use apme_api.Database.{TenantRow, MembershipRow, Tables}
use apme_api.Cases.Queries.{ContextRow, member_of, join_memberships, select_context, with_tenant}

member_of_iff :
    (tenant_id : Uuid) (user : Str) (m : MembershipRow)
    → (member_of tenant_id user m ≡ true)
      ↔ ((m.tenant_id ≡ tenant_id) × (m.shared_user_id ≡ user) × (m.active ≡ true))
unfolding member_of
member_of_iff tenant_id user m = ground (arith, str_eq_iff m.shared_user_id user)

-- The tenant exists, and the user is an active member of it with that role.
pub record IsMember (tenant_id : Uuid) (user : Str) (memberships : List MembershipRow)
    (tenants : List TenantRow) (row : ContextRow) : Type 0 where
  pub tenant : TenantRow
  pub membership : MembershipRow
  pub tenant_listed : Memᴰ tenant tenants
  pub membership_listed : Memᴰ membership memberships
  pub same_tenant : tenant.id ≡ tenant_id
  pub of_tenant : membership.tenant_id ≡ tenant_id
  pub of_user : membership.shared_user_id ≡ user
  pub active : membership.active ≡ true
  pub organization : row.organization_id ≡ tenant.organization_id
  pub role : row.role ≡ membership.role

module _ (tenant_id : Uuid) (user : Str) (memberships : List MembershipRow) where
  later_tenant :
      {row : ContextRow} (t : TenantRow) (tenants : List TenantRow)
      → IsMember tenant_id user memberships tenants row
      → IsMember tenant_id user memberships (t ∷ tenants) row
  later_tenant t tenants m = record {
    tenant = m.tenant;
    membership = m.membership;
    tenant_listed = Memᴰ.tail m.tenant_listed;
    membership_listed = m.membership_listed;
    same_tenant = m.same_tenant;
    of_tenant = m.of_tenant;
    of_user = m.of_user;
    active = m.active;
    organization = m.organization;
    role = m.role;
  }

  here_tenant :
      {row : ContextRow} (t : TenantRow) (tenants : List TenantRow)
      → t.id ≡ tenant_id
      → Memᴰ row (with_tenant t (select (member_of t.id user) memberships))
      → IsMember tenant_id user memberships (t ∷ tenants) row
  here_tenant t tenants same m =
      let (membership, n, e) = mem-map _ _ m in
      let (listed, passes) = (mem-select (member_of t.id user) memberships).0 n in
      let (of_tenant, of_user, active) = (member_of_iff t.id user membership).0 passes in
      record {
        tenant = t;
        membership = membership;
        tenant_listed = Memᴰ.head refl;
        membership_listed = listed;
        same_tenant = same;
        of_tenant = of_tenant ∙ same;
        of_user = of_user;
        active = active;
        organization = ap (λ (r : ContextRow). r.organization_id) e;
        role = ap (λ (r : ContextRow). r.role) e;
      }

  mem-join :
      {row : ContextRow} (tenants : List TenantRow)
      → Memᴰ row (join_memberships tenant_id user memberships tenants)
      → IsMember tenant_id user memberships tenants row
  unfolding join_memberships
  mem-join [] m = elim m [ ]
  mem-join (t ∷ tenants) m = elim (Bool-cases (t.id == tenant_id)) [
    | inl e ↦ elim ((mem-append _ _).0 (rw e at m)) [
      | inl n ↦ here_tenant t tenants (ground arith) n
      | inr n ↦ later_tenant t tenants (mem-join tenants n)
    ]
    | inr e ↦ later_tenant t tenants (mem-join tenants (rw e at m))
  ]

  join-mem :
      (t : TenantRow) (tenants : List TenantRow) (m : MembershipRow)
      → Memᴰ t tenants
      → Memᴰ m memberships
      → t.id ≡ tenant_id
      → member_of tenant_id user m ≡ true
      → Memᴰ
          (record { organization_id = t.organization_id; role = m.role })
          (join_memberships tenant_id user memberships tenants)
  unfolding join_memberships
  join-mem t [] m tm mm same passes = elim tm [ ]
  join-mem t (u ∷ tenants) m tm mm same passes = elim (Bool-cases (u.id == tenant_id)) [
    | inl e ↦ rw e (
        (mem-append (with_tenant u (select (member_of u.id user) memberships))
            (join_memberships tenant_id user memberships tenants)).1
          (elim (mem_cases tm) [
            | inl q ↦
                let same_u : u.id ≡ tenant_id = ground arith in
                inl (rw q (map-mem _ _ ((mem-select _ memberships).1 (mm, rw same_u passes))))
            | inr n ↦ inr (join-mem t tenants m n mm same passes)
          ]))
    | inr e ↦ rw e (elim (mem_cases tm) [
      | inl q ↦ absurd (ground arith)
      | inr n ↦ join-mem t tenants m n mm same passes
    ])
  ]

-- The row that `tenant_context` reads is a membership of the user in the tenant, active and stored.
pub select_context_sound :
    (tenant_id : Uuid) (user : Str) (t : Tables) {row : ContextRow}
    → select_context tenant_id user t ≡ some row
    → IsMember tenant_id user t.memberships t.tenants row
unfolding select_context
select_context_sound tenant_id user t h =
    mem-join tenant_id user t.memberships t.tenants (mem-first _ h)

-- None is found only where no active membership of the user in a stored tenant exists.
select_context_complete :
    (tenant_id : Uuid) (user : Str) (t : Tables)
    → select_context tenant_id user t ≡ none
    → (row : ContextRow) → ¬ IsMember tenant_id user t.memberships t.tenants row
unfolding select_context
select_context_complete tenant_id user t h row m = not-mem_of_first _ h (
    join-mem tenant_id user t.memberships m.tenant t.tenants m.membership m.tenant_listed
      m.membership_listed m.same_tenant
      ((member_of_iff tenant_id user m.membership).1 (m.of_tenant, m.of_user, m.active)))
