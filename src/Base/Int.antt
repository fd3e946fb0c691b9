-- ===== src/Base/Int.antt =====
-- Go's signed `int` and `time.Duration`, over the native numbers.
use Prim.Native.Nat.{ℕ}
use mathlib.Core.Bool.{Bool, true, false}
use httpssh.Base.Tests.{leb}

-- `negsuc n` is -(n + 1).
pub data ℤ : Type 0 where
  pos : ℕ → ℤ
  negsuc : ℕ → ℤ

-- x <= 0
abbrev pub non_positive : ℤ → Bool
non_positive (pos n) = leb n 0
non_positive (negsuc _) = true

-- x < 0
abbrev pub is_negative : ℤ → Bool
is_negative (pos _) = false
is_negative (negsuc _) = true

-- The value of a number that is not negative, and 0 for the others.
abbrev pub to_nat : ℤ → ℕ
to_nat (pos n) = n
to_nat (negsuc _) = 0
