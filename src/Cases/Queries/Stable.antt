-- ===== src/Cases/Queries/Stable.antt =====
-- The listing does not depend on the order in which the table holds its rows.
use mathlib.Core.List.{Perm, Permᴰ}
use mathlib.Core.List.Permᴰ
use mathlib.Core.Logic.{∥∥₁_elim}
use apme_api.Prelude.{
  ◌≡◌, ◌≢◌, refl, sym, ap, ◌∙◌, ◌==◌, inl, inr, true, false, List, [], ◌∷◌, Memᴰ, mem_cases,
  mem-select, Bool, arith, select, Bool-cases,
}
use apme_api.Domain.{Uuid}
use apme_api.Database.{CaseRow, Tables}
use apme_api.Cases.Queries.{is_live, precedes, insert_row, order_rows, case_select_list}

rows_set : IsSet (List CaseRow)
rows_set = hlevel

-- No id is that of two rows.
abbrev pub IsKeyed : List CaseRow → Type 0
IsKeyed rows = (r s : CaseRow) → Memᴰ r rows → Memᴰ s rows → r.id ≡ s.id → r ≡ s

precedes_antisym : (r s : CaseRow) → r.id ≢ s.id → precedes r s ≡ true → precedes s r ≡ false
unfolding precedes
precedes_antisym r s other h = ground arith

precedes_total : (r s : CaseRow) → precedes r s ≡ false → precedes s r ≡ true
unfolding precedes
precedes_total r s h = ground arith

precedes_trans : (r s t : CaseRow) → precedes r s ≡ true → precedes s t ≡ true → precedes r t ≡ true
unfolding precedes
precedes_trans r s t h k = ground arith

insert_row_later :
    (r s : CaseRow) (rows : List CaseRow)
    → precedes r s ≡ true
    → precedes s r ≡ false
    → insert_row r (insert_row s rows) ≡ insert_row s (insert_row r rows)
unfolding insert_row
insert_row_later r s [] h k = rw (h, k) refl
insert_row_later r s (t ∷ rows) h k = elim (Bool-cases (precedes s t)) [
  | inl e ↦ elim (Bool-cases (precedes r t)) [
    | inl d ↦ rw e (rw h (rw d (rw k (rw e refl))))
    | inr d ↦ cc (precedes_trans r s t h e)
  ]
  | inr e ↦ elim (Bool-cases (precedes r t)) [
    | inl d ↦ rw e (rw d (rw k (rw e refl)))
    | inr d ↦ rw e (rw d (rw e (ap (λ l. t ∷ l) (insert_row_later r s rows h k))))
  ]
]

insert_row_comm :
    (r s : CaseRow) (rows : List CaseRow)
    → r.id ≢ s.id
    → insert_row r (insert_row s rows) ≡ insert_row s (insert_row r rows)
insert_row_comm r s rows other = elim (Bool-cases (precedes r s)) [
  | inl e ↦ insert_row_later r s rows e (precedes_antisym r s other e)
  | inr e ↦ sym (insert_row_later s r rows (precedes_total r s e) e)
]

mem_perm : {a : CaseRow} {l l' : List CaseRow} → Permᴰ l l' → Memᴰ a l → Memᴰ a l'
mem_perm Permᴰ.nil m = m
mem_perm (Permᴰ.cons e d) m = elim (mem_cases m) [
  | inl q ↦ Memᴰ.head (q ∙ e)
  | inr n ↦ Memᴰ.tail (mem_perm d n)
]
mem_perm (Permᴰ.swap e d) m = elim (mem_cases m) [
  | inl q ↦ Memᴰ.tail (Memᴰ.head (q ∙ e))
  | inr n ↦ elim (mem_cases n) [ inl q ↦ Memᴰ.head (q ∙ d) | inr k ↦ Memᴰ.tail (Memᴰ.tail k) ]
]
mem_perm (Permᴰ.trans d e) m = mem_perm e (mem_perm d m)

order_rows_stable : {l l' : List CaseRow} → Permᴰ l l' → IsKeyed l' → order_rows l ≡ order_rows l'
unfolding order_rows
order_rows_stable Permᴰ.nil keyed = refl
order_rows_stable (Permᴰ.cons {a = a} {l₂ = rows} e d) keyed =
    ap (insert_row a) (order_rows_stable d λ r s m n. keyed r s (Memᴰ.tail m) (Memᴰ.tail n))
    ∙ ap (λ x. insert_row x (order_rows rows)) e
order_rows_stable (Permᴰ.swap {a = a} {b = b} {a' = a'} {b' = b'} {l = rows} e d) keyed =
    ap (λ x. insert_row x (insert_row b (order_rows rows))) e
    ∙ ap (λ x. insert_row b' (insert_row x (order_rows rows))) d
    ∙ elim (Bool-cases (a'.id == b'.id)) [
      | inl q ↦
          let same : a' ≡ b' =
            keyed a' b' (Memᴰ.head refl) (Memᴰ.tail (Memᴰ.head refl)) (ground arith) in
          rw same refl
      | inr q ↦ insert_row_comm b' a' (order_rows rows) (λ same. ground arith)
    ]
order_rows_stable (Permᴰ.trans d e) keyed =
    order_rows_stable d (λ r s m n. keyed r s (mem_perm e m) (mem_perm e n))
    ∙ order_rows_stable e keyed

select_perm :
    (p : CaseRow → Bool) {l l' : List CaseRow} → Permᴰ l l' → Permᴰ (select p l) (select p l')
unfolding select
select_perm p Permᴰ.nil = Permᴰ.nil
select_perm p (Permᴰ.cons {a = a} {b = b} {l₁ = l} e d) = elim (Bool-cases (p a)) [
  | inl h ↦ let k : p b ≡ true = rw (← e) h in rw (h, k) (Permᴰ.cons e (select_perm p d))
  | inr h ↦ let k : p b ≡ false = rw (← e) h in rw (h, k) (select_perm p d)
]
select_perm p (Permᴰ.swap {a = a} {b = b} {a' = a'} {b' = b'} {l = l} e d) =
    let first : p a ≡ p b' = ap p e in
    let second : p b ≡ p a' = ap p d in
    elim (Bool-cases (p a)) [
      | inl h ↦ elim (Bool-cases (p b)) [
        | inl k ↦ rw (h, k, sym second ∙ k, sym first ∙ h) (Permᴰ.swap e d)
        | inr k ↦ rw (h, k, sym second ∙ k, sym first ∙ h) (Permᴰ.cons e (Permᴰ.refl (select p l)))
      ]
      | inr h ↦ elim (Bool-cases (p b)) [
        | inl k ↦ rw (h, k, sym second ∙ k, sym first ∙ h) (Permᴰ.cons d (Permᴰ.refl (select p l)))
        | inr k ↦ rw (h, k, sym second ∙ k, sym first ∙ h) (Permᴰ.refl (select p l))
      ]
    ]
select_perm p (Permᴰ.trans d e) = Permᴰ.trans (select_perm p d) (select_perm p e)

-- Where no id is that of two rows, the listing does not depend on the order of the rows.
pub case_select_list_stable :
    (tenant_id : Uuid) (t u : Tables)
    → Perm t.cases u.cases
    → IsKeyed u.cases
    → case_select_list tenant_id t ≡ case_select_list tenant_id u
unfolding case_select_list
case_select_list_stable tenant_id t u perm keyed = ∥∥₁_elim perm (rows_set _ _) λ d.
    order_rows_stable (select_perm (is_live tenant_id) d) λ r s m n.
      keyed r s ((mem-select (is_live tenant_id) u.cases).0 m).0
        ((mem-select (is_live tenant_id) u.cases).0 n).0
