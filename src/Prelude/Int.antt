-- ===== src/Prelude/Int.antt =====
-- Signed machine integers (`i64` versions, `i32` key versions): only their sign is tested.
use Prim.Native.Nat.{ℕ, zero, suc}
use mathlib.Core.Bool.{Bool, true, false}

-- `negsuc n` is -(n + 1).
pub data ℤ : Type 0 where
  pos : ℕ → ℤ
  negsuc : ℕ → ℤ

-- `0 < z`.
abbrev pub is_positive : ℤ → Bool
is_positive (pos n) = elim n [ zero ↦ false | suc m ↦ true ]
is_positive (negsuc n) = false
