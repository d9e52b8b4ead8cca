-- ===== src/Prelude/Try.antt =====
-- `do` blocks for the `?` of functions that return a `Result`.
use apme_api.Prelude.Results.{Result, and_then}

infixl 5 ◌>>=◌ ◌>>◌
abbrev pub ◌>>=◌ {ℓ κ μ} :
    {E : Type ℓ} {A : Type κ} {B : Type μ} → Result E A → (A → Result E B) → Result E B
m >>= f = and_then m f

abbrev pub ◌>>◌ {ℓ κ μ} :
    {E : Type ℓ} {A : Type κ} {B : Type μ} → Result E A → Result E B → Result E B
m >> r = m >>= λ _. r
