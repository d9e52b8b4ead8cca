-- ===== src/Tests/Listing.antt =====
-- One listing of cases that are stored in two orders.
use mathlib.Core.List.Perm
use apme_api.Prelude.{
  ◌≡◌, refl, sym, ap, ◌∙◌, inl, inr, List, [], ◌∷◌, mem_cases, ok, collect_map, select, arith,
}
use apme_api.Text.{codes, str_eq}
use apme_api.Database.{CaseRow, World, current, continue, lift, raise_as, read}
use apme_api.Cases.Names.{parse_status, parse_retention}
use apme_api.Cases.Rows.{case_from_row, document_of_columns}
use apme_api.Cases.Queries.{case_select_list, insert_row, is_live, order_rows, precedes}
use apme_api.Cases.Queries.Stable.{IsKeyed}
use apme_api.Cases.Lookup.{list_cases}
use apme_api.Cases.Lookup.Listing.{list_cases_stable}
use apme_api.Tests.Fixture.{tenant, context, world, stored_row, stored_case}

-- Two cases of the tenant, which the table holds in one order and in the other.
abbrev with_cases : List CaseRow → World
with_cases rows = record world { tables = record world.tables { cases = rows } }

abbrev one_way : World
one_way = with_cases (stored_row tenant 2 ∷ stored_row tenant 3 ∷ [])

abbrev other_way : World
other_way = with_cases (stored_row tenant 3 ∷ stored_row tenant 2 ∷ [])

listed_one_way : list_cases context one_way ≡ (ok (stored_case 2 ∷ stored_case 3 ∷ []), one_way)
unfolding list_cases continue raise_as read lift collect_map case_select_list order_rows select
    is_live insert_row case_from_row parse_status str_eq codes parse_retention document_of_columns
    precedes
listed_one_way = refl

listed_other_way :
    list_cases context other_way ≡ (ok (stored_case 2 ∷ stored_case 3 ∷ []), other_way)
unfolding list_cases continue raise_as read lift collect_map case_select_list order_rows select
    is_live insert_row case_from_row parse_status str_eq codes parse_retention document_of_columns
    precedes
listed_other_way = refl

keyed : IsKeyed (current other_way).cases
unfolding current
keyed r s m n same = elim (mem_cases m) [
  | inl e ↦ elim (mem_cases n) [
    | inl d ↦ e ∙ sym d
    | inr k ↦ elim (mem_cases k) [
      | inl d ↦
          let ids : 3 ≡ 2 =
            ap (λ (x : CaseRow). x.id) (sym e) ∙ same ∙ ap (λ (x : CaseRow). x.id) d in
          absurd (omega (arith, ids))
      | inr j ↦ elim j [ ]
    ]
  ]
  | inr i ↦ elim (mem_cases i) [
    | inl e ↦ elim (mem_cases n) [
      | inl d ↦
          let ids : 2 ≡ 3 =
            ap (λ (x : CaseRow). x.id) (sym e) ∙ same ∙ ap (λ (x : CaseRow). x.id) d in
          absurd (omega (arith, ids))
      | inr k ↦ elim (mem_cases k) [ inl d ↦ e ∙ sym d | inr j ↦ elim j [ ] ]
    ]
    | inr j ↦ elim j [ ]
  ]
]

stable_example : stored_case 2 ∷ stored_case 3 ∷ [] ≡ stored_case 2 ∷ stored_case 3 ∷ []
unfolding current
stable_example =
    list_cases_stable context one_way one_way other_way other_way
      (stored_case 2 ∷ stored_case 3 ∷ []) (stored_case 2 ∷ stored_case 3 ∷ []) listed_one_way
      listed_other_way (Perm.swap (stored_row tenant 3) (stored_row tenant 2) []) keyed
