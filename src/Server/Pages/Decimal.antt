-- ===== src/Server/Pages/Decimal.antt =====
-- What the metrics page says.
use apme_api.Prelude.{
  ℕ, ◌+◌, ◌/◌, ◌%◌, ◌≡◌, ◌<◌, sym, ap, ◌∙◌, zero, suc, Bool-cases, inl, inr, [], ◌∷◌, ◌++◌, length,
  Result, ok, some, ltb, arith,
}
use mathlib.Core.List.{append_assoc, append-nil}
use apme_api.Text.{Str, codes}
use apme_api.Database.{SqlError, World, current}
use apme_api.Database.Frames.{continue-eq-ok, finish-eq-ok, raise_as-eq-ok, read-eq-ok}
use apme_api.Transport.Options.{parse_digits}
use apme_api.Server.Pages.{digits, decimal, metrics_text, metrics}

next_digit :
    (n : ℕ) (rest : Str) → parse_digits (n / 10) ((b'0' + n % 10) ∷ rest) ≡ parse_digits n rest
unfolding parse_digits
next_digit n rest = ground arith

only_digit :
    (n : ℕ) (rest : Str) → n < 10 → parse_digits 0 ((b'0' + n) ∷ rest) ≡ parse_digits n rest
unfolding parse_digits
only_digit n rest h = ground arith

parse_digits-digits :
    (fuel n : ℕ) (rest : Str)
    → n < fuel
    → parse_digits 0 (digits fuel n ++ rest) ≡ parse_digits n rest
unfolding digits
parse_digits-digits zero n rest h = absurd (omega arith)
parse_digits-digits (suc fuel) n rest h = elim (Bool-cases (ltb n 10)) [
  | inl e ↦ rw e (only_digit n rest (ground arith))
  | inr e ↦
      rw (e, append_assoc (digits fuel (n / 10)) ((b'0' + n % 10) ∷ []) rest)
        (parse_digits-digits fuel (n / 10) ((b'0' + n % 10) ∷ rest) (ground arith)
          ∙ next_digit n rest)
]

parse_digits-decimal : (n : ℕ) → parse_digits 0 (decimal n) ≡ some n
unfolding decimal parse_digits
parse_digits-decimal n =
    ap (λ s. parse_digits 0 s) (sym (append-nil (decimal n)))
    ∙ parse_digits-digits (suc n) n [] (omega arith)

ok-inj : (m n : ℕ) → ◌≡◌ {A = Result SqlError ℕ} (ok m) (ok n) → m ≡ n
ok-inj m n h = cc

-- A metrics page that is answered is the two lines with a number that reads back as how many rows
-- `apme_cases` had when the statement ran, over all tenants.
pub metrics-counts :
    (w w' : World) (body : Str)
    → metrics w ≡ (ok body, w')
    → (shown : Str) × (body
        ≡ codes "# TYPE apme_records gauge\napme_records " ++ shown ++ codes "\n")
      × (parse_digits 0 shown ≡ some (length (current w).cases))
unfolding metrics metrics_text
metrics-counts w w' body h =
    let (count, u, counted, h1) = continue-eq-ok _ _ h in
    let (made, last) = finish-eq-ok _ u h1 in
    let found : ◌≡◌ {A = Result SqlError ℕ} (ok (length (current w).cases)) (ok count) =
      read-eq-ok (λ t. ok (length t.cases)) w (raise_as-eq-ok _ _ w counted) in
    (decimal count, sym made, parse_digits-decimal count ∙ ap some (sym (ok-inj _ count found)))
