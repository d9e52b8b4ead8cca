-- ===== src/Cases/Queries/Order.antt =====
-- What the queries return: the rows that satisfy the `where` clause, each of them, in the order that
-- `order by` gives.
use mathlib.Core.List.{Perm}
use mathlib.Core.List.Perm
use apme_api.Prelude.{
  ◌≤◌, ◌<◌, ◌≡◌, ◌≢◌, ◌↔◌, ◌⊎◌, inl, inr, true, false, none, some, List, [], ◌∷◌, Memᴰ, arith, All,
  select, first, Bool-cases, mem_cases, mem-select, mem-first, not-mem_of_first, ◌&&◌, ◌==◌, ok,
}
use apme_api.Domain.{Uuid}
use apme_api.Database.{CaseRow, EventRow, Tables}
use apme_api.Cases.Queries.{
  is_live, precedes, insert_row, order_rows, case_select_list, case_select_one, select_event,
}

-- `r` may stand in front of `s`: created later, or at once with an id that is not greater.
abbrev pub Before : CaseRow → CaseRow → Type 0
Before r s = (s.created_at < r.created_at) ⊎ ((r.created_at ≡ s.created_at) × (r.id ≤ s.id))

abbrev pub IsOrdered : List CaseRow → Type 0
IsOrdered [] = Unit
IsOrdered (r ∷ rows) = All (Before r) rows × IsOrdered rows

Before-of_precedes : (r s : CaseRow) → precedes r s ≡ true → Before r s
unfolding precedes
Before-of_precedes r s h = ground arith

Before-of_not : (r s : CaseRow) → precedes r s ≡ false → Before s r
unfolding precedes
Before-of_not r s h = ground arith

Before-trans : (r s t : CaseRow) → Before r s → Before s t → Before r t
Before-trans r s t h k = ground arith

All-Before :
    (r s : CaseRow) (rows : List CaseRow) → Before r s → All (Before s) rows → All (Before r) rows
All-Before r s [] h k = tt
All-Before r s (t ∷ rows) h (b, k) = (Before-trans r s t h b, All-Before r s rows h k)

All-insert_row :
    (p r : CaseRow) (rows : List CaseRow)
    → Before p r
    → All (Before p) rows
    → All (Before p) (insert_row r rows)
unfolding insert_row
All-insert_row p r [] b h = (b, tt)
All-insert_row p r (s ∷ rows) b (c, h) = elim (Bool-cases (precedes r s)) [
  | inl e ↦ rw e (b, (c, h))
  | inr e ↦ rw e (c, All-insert_row p r rows b h)
]

insert_row-IsOrdered :
    (r : CaseRow) (rows : List CaseRow) → IsOrdered rows → IsOrdered (insert_row r rows)
unfolding insert_row
insert_row-IsOrdered r [] h = (tt, tt)
insert_row-IsOrdered r (s ∷ rows) (a, h) = elim (Bool-cases (precedes r s)) [
  | inl e ↦ let b = Before-of_precedes r s e in rw e ((b, All-Before r s rows b a), (a, h))
  | inr e ↦ rw e (All-insert_row s r rows (Before-of_not r s e) a, insert_row-IsOrdered r rows h)
]

order_rows-IsOrdered : (rows : List CaseRow) → IsOrdered (order_rows rows)
unfolding order_rows
order_rows-IsOrdered [] = tt
order_rows-IsOrdered (r ∷ rows) =
    insert_row-IsOrdered r (order_rows rows) (order_rows-IsOrdered rows)

mem-insert_row :
    {a : CaseRow} (r : CaseRow) (rows : List CaseRow)
    → Memᴰ a (insert_row r rows) ↔ Memᴰ a (r ∷ rows)
unfolding insert_row
mem-insert_row r [] = (λ m. m, λ m. m)
mem-insert_row {a} r (s ∷ rows) = elim (Bool-cases (precedes r s)) [
  | inl e ↦ rw e (λ m. m, λ m. m)
  | inr e ↦
      let ih = mem-insert_row {a = a} r rows in
      rw e (
        λ m. elim (mem_cases m) [
          | inl q ↦ Memᴰ.tail (Memᴰ.head q)
          | inr n ↦ elim (mem_cases (ih.0 n)) [
            | inl q ↦ Memᴰ.head q
            | inr k ↦ Memᴰ.tail (Memᴰ.tail k)
          ]
        ],
        λ m. elim (mem_cases m) [
          | inl q ↦ Memᴰ.tail (ih.1 (Memᴰ.head q))
          | inr n ↦ elim (mem_cases n) [
            | inl q ↦ Memᴰ.head q
            | inr k ↦ Memᴰ.tail (ih.1 (Memᴰ.tail k))
          ]
        ],
      )
]

mem-order_rows : {a : CaseRow} (rows : List CaseRow) → Memᴰ a (order_rows rows) ↔ Memᴰ a rows
unfolding order_rows
mem-order_rows [] = (λ m. m, λ m. m)
mem-order_rows {a} (r ∷ rows) =
    let ih = mem-order_rows {a = a} rows in
    let step = mem-insert_row {a = a} r (order_rows rows) in
    (
      λ m. elim (mem_cases (step.0 m)) [ inl q ↦ Memᴰ.head q | inr n ↦ Memᴰ.tail (ih.0 n) ],
      λ m. step.1 (elim (mem_cases m) [ inl q ↦ Memᴰ.head q | inr n ↦ Memᴰ.tail (ih.1 n) ]),
    )

insert_row-perm : (r : CaseRow) (rows : List CaseRow) → Perm (insert_row r rows) (r ∷ rows)
unfolding insert_row
insert_row-perm r [] = Perm.rfl
insert_row-perm r (s ∷ rows) = elim (Bool-cases (precedes r s)) [
  | inl e ↦ rw e Perm.rfl
  | inr e ↦ rw e (Perm.trans (Perm.cons s (insert_row-perm r rows)) (Perm.swap r s rows))
]

order_rows-perm : (rows : List CaseRow) → Perm (order_rows rows) rows
unfolding order_rows
order_rows-perm [] = Perm.rfl
order_rows-perm (r ∷ rows) =
    Perm.trans (insert_row-perm r (order_rows rows)) (Perm.cons r (order_rows-perm rows))

-- The listing holds each of the rows that the `where` clause selects as often as the table does.
pub case_select_list-perm :
    (tenant_id : Uuid) (t : Tables)
    → Perm (case_select_list tenant_id t) (select (is_live tenant_id) t.cases)
unfolding case_select_list
case_select_list-perm tenant_id t = order_rows-perm (select (is_live tenant_id) t.cases)

pub is_live_iff :
    (tenant_id : Uuid) (r : CaseRow)
    → (is_live tenant_id r ≡ true) ↔ ((r.tenant_id ≡ tenant_id) × (r.tombstoned_at ≡ none))
unfolding is_live
is_live_iff tenant_id r = ground arith

-- The listing holds exactly the tenant's rows without a tombstone, the newest first and those of one
-- instant by id.
pub case_select_list_lem :
    (tenant_id : Uuid) (t : Tables)
    → IsOrdered (case_select_list tenant_id t)
      × ((r : CaseRow)
          → Memᴰ r (case_select_list tenant_id t)
            ↔ (Memᴰ r t.cases × (r.tenant_id ≡ tenant_id) × (r.tombstoned_at ≡ none)))
unfolding case_select_list
case_select_list_lem tenant_id t = (
  order_rows-IsOrdered (select (is_live tenant_id) t.cases),
  λ r. (
    λ m.
        let (n, e) = (mem-select (is_live tenant_id) t.cases).0 ((mem-order_rows _).0 m) in
        let (same, kept) = (is_live_iff tenant_id r).0 e in (n, same, kept),
    λ (m, same, kept).
        (mem-order_rows _).1 (
          (mem-select (is_live tenant_id) t.cases).1 (m, (is_live_iff tenant_id r).1 (same, kept))),
  ),
)

-- A single row that is found has the tenant and the id that were asked for, and no tombstone.
pub case_select_one_sound :
    (tenant_id id : Uuid) (t : Tables) {r : CaseRow}
    → case_select_one tenant_id id t ≡ some r
    → Memᴰ r t.cases × (r.tenant_id ≡ tenant_id) × (r.id ≡ id) × (r.tombstoned_at ≡ none)
unfolding case_select_one
case_select_one_sound tenant_id id t {r} h =
    let (m, e) =
      (mem-select (λ row. is_live tenant_id row && row.id == id) t.cases).0 (mem-first _ h) in
    let (same, kept) = (is_live_iff tenant_id r).0 (ground arith) in (m, same, ground arith, kept)

-- None is found only where there is no such row.
pub case_select_one_complete :
    (tenant_id id : Uuid) (t : Tables)
    → case_select_one tenant_id id t ≡ none
    → (r : CaseRow) → Memᴰ r t.cases
    → r.tenant_id ≡ tenant_id
    → r.id ≡ id
    → r.tombstoned_at ≢ none
unfolding case_select_one
case_select_one_complete tenant_id id t h r m same_tenant same_id kept = not-mem_of_first _ h (
    (mem-select (λ row. is_live tenant_id row && row.id == id) t.cases).1
      (m, ground (arith, is_live_iff tenant_id r)))

pub select_event_sound :
    (tenant_id event_id : Uuid) (t : Tables) {e : EventRow}
    → select_event tenant_id event_id t ≡ ok e
    → Memᴰ e t.events × (e.tenant_id ≡ tenant_id) × (e.event_id ≡ event_id)
unfolding select_event
select_event_sound tenant_id event_id t {e} h =
    let wanted = λ (e : EventRow). e.tenant_id == tenant_id && e.event_id == event_id in
    let found : first (select wanted t.events) ≡ some e = ground arith in
    let (m, p) = (mem-select wanted t.events).0 (mem-first (select wanted t.events) found) in
    (m, ground arith, ground arith)
