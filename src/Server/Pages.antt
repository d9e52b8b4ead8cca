-- ===== src/Server/Pages.antt =====
-- The three handlers that need no authentication: `index`, `health` and `metrics`.
pub mod Decimal
use apme_api.Prelude.{
  ℕ, ◌+◌, ◌/◌, ◌%◌, zero, suc, List, [], ◌∷◌, ◌++◌, length, ok, ltb, if◌then◌else◌,
}
use mathlib.Core.Option
use apme_api.Text.{Str, codes}
use apme_api.Database.{Action, ◌>>=◌, finish, raise_as, read}
use apme_api.Cases.Errors.{storage}
use apme_api.Api.Errors.{ApiError, cases}

-- The JSON object of `index`.
pub record Index : Type 0 where
  pub service : Str
  pub product : Str
  pub rest : Str
  pub websocket : Str

unfoldable pub index : Index
unfolding codes
index = record {
  service = codes "apme-api";
  product = codes "Apostille Me";
  rest = codes "/api/v1/cases";
  websocket = codes "/ws";
}

pub record Health : Type 0 where
  pub status : Str
  pub service : Str
  pub version : Str

-- The version is that of the package, which the build sets.
unfoldable pub health : Str → Health
unfolding codes
health version = record { status = codes "ok"; service = codes "apme-api"; version = version }

-- The decimal digits of a number. A number has at most as many digits as itself and one more.
unfoldable pub digits : ℕ → ℕ → Str
digits zero n = []
digits (suc fuel) n =
    let before = digits fuel (n / 10) in
    if ltb n 10 then (b'0' + n) ∷ [] else before ++ (b'0' + n % 10) ∷ []

-- `{}` of a number that is not negative.
unfoldable pub decimal : ℕ → Str
decimal n = digits (suc n) n

unfoldable pub metrics_text : ℕ → Str
metrics_text case_count =
    codes "# TYPE apme_records gauge\napme_records " ++ decimal case_count ++ codes "\n"

-- The statement counts the rows of `apme_cases`, those of every tenant.
unfoldable pub metrics : Action ApiError Str
metrics = do
  case_count ← raise_as (λ e. cases (storage e)) (read (λ t. ok (length t.cases)))
  finish (metrics_text case_count)
