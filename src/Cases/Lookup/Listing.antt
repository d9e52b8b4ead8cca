-- ===== src/Cases/Lookup/Listing.antt =====
-- A listing depends on what the table holds, not on the order in which it holds it.
use mathlib.Core.List.{Perm}
use apme_api.Prelude.{◌≡◌, sym, ap, ◌∙◌, List, ok, collect_map}
use apme_api.Domain.{TenantContext, PersistedCase}
use apme_api.Database.{World, current}
use apme_api.Database.Frames.{continue-eq-ok, raise_as-eq-ok, lift-eq-ok, read-eq-ok}
use apme_api.Cases.Rows.{case_from_row}
use apme_api.Cases.Queries.{case_select_list}
use apme_api.Cases.Queries.Stable.{IsKeyed, case_select_list_stable}
use apme_api.Cases.Lookup.{list_cases}

list_cases-rows :
    (context : TenantContext) (w w' : World) (cases : List PersistedCase)
    → list_cases context w ≡ (ok cases, w')
    → collect_map case_from_row (case_select_list context.tenant_id (current w)) ≡ ok cases
unfolding list_cases
list_cases-rows context w w' cases h =
    let (rows, u, p, q) = continue-eq-ok _ _ h in
    let selected = read-eq-ok _ w (raise_as-eq-ok _ _ w p) in
    let same : case_select_list context.tenant_id (current w) ≡ rows = cc selected in
    rw same (lift-eq-ok _ u q).0

-- Two listings for one tenant that succeed, where the statements meet the same cases in any two orders
-- and no id is that of two cases, are equal.
pub list_cases_stable :
    (context : TenantContext) (w w' v v' : World) (before after : List PersistedCase)
    → list_cases context w ≡ (ok before, w')
    → list_cases context v ≡ (ok after, v')
    → Perm (current w).cases (current v).cases
    → IsKeyed (current v).cases
    → before ≡ after
list_cases_stable context w w' v v' before after h k perm keyed =
    let same = case_select_list_stable context.tenant_id (current w) (current v) perm keyed in
    let one = list_cases-rows context w w' before h in
    let other = list_cases-rows context v v' after k in
    let equal : ok before ≡ ok after = sym one ∙ ap (collect_map case_from_row) same ∙ other in
    cc equal
