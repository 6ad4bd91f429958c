-- ===== src/Common/Int.antt =====
-- Signed integers over the native numbers: the values of the C types int8_t, int16_t and int.
use Prim.Native.Nat.{ℕ, suc}
use mathlib.Core.Bool.{Bool, true, false}

-- `negsuc n` is -(n + 1).
pub data ℤ : Type 0 where
  pos : ℕ → ℤ
  negsuc : ℕ → ℤ

-- An `int` that is read as a condition.
abbrev pub is_nonzero : ℤ → Bool
is_nonzero (pos ℕ.zero) = false
is_nonzero _ = true

abbrev pub is_nonneg : ℤ → Bool
is_nonneg (pos _) = true
is_nonneg (negsuc _) = false

abbrev pub neg : ℤ → ℤ
neg (pos ℕ.zero) = pos 0
neg (pos (suc n)) = negsuc n
neg (negsuc n) = pos (suc n)
