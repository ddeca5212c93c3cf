-- ===== src/Punycode/Adapt.antt =====
-- The loop of `adapt` (packages/core/src/unicode/punycode.ts).
use linklint.Common.{Bool-cases, arith, inl, inr, ltb, suc, zero, ℕ, ◌+◌, ◌/◌, ◌≤◌}
use linklint.Punycode.{shrink}

-- Fuel as large as the delta is enough: the loop ends where its condition fails.
pub shrink-Ends : (fuel delta k : ℕ) → delta ≤ fuel → (shrink fuel delta k).0 ≤ 455
unfolding shrink
shrink-Ends zero delta k h = omega arith
shrink-Ends (suc fuel) delta k h = elim (Bool-cases (ltb 455 delta)) [
  | inl more ↦ rw more (shrink-Ends fuel (delta / 35) (k + 36) (ground (arith, more)))
  | inr done ↦ rw done (ground (arith, done))
]
