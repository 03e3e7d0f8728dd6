-- ===== src/Prelude/Ints.antt =====
-- Signed integers over the native numbers; decimal amounts are integers in units of 10⁻⁸.
use Prim.Native.Nat.{ℕ}
use mathlib.Core.Option.{Option, none, some}

-- `negsuc n` is -(n + 1).
pub data ℤ : Type 0 where
  pos : ℕ → ℤ
  negsuc : ℕ → ℤ

-- Python's `value or 0.0`: a missing amount and a zero both give zero.
abbrev pub or_zero : Option ℤ → ℤ
or_zero none = pos 0
or_zero (some x) = x
