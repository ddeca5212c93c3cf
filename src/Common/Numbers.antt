-- ===== src/Common/Numbers.antt =====
-- A JavaScript number, as far as the code tells numbers apart: whole, or not finite. Fractions are
-- not modelled.
use Prim.Native.Nat.{ℕ, suc}
use mathlib.Core.Option.{Option, none, some}

-- `negsuc n` is -(n + 1).
pub data ℤ : Type 0 where
  pos : ℕ → ℤ
  negsuc : ℕ → ℤ

pub data Number : Type 0 where
  nan infinity neg_infinity : Number
  finite : ℤ → Number

-- `Number.isFinite(x) && x > 0`, with the value.
abbrev pub positive : Number → Option ℕ
positive (finite (pos (suc n))) = some (suc n)
positive _ = none
