-- ===== src/Punycode/Encode/Integers.antt =====
-- The loop of one integer (packages/core/src/unicode/punycode.ts).
use native.Mathlib.Nat.{div-le_self}
use linklint.Common.{
  Bool-cases, Option, Text, arith, false, inl, inr, is_none, ltb, none, refl, some, suc, zero, ℕ,
  ◌%◌, ◌+◌, ◌-◌, ◌/◌, ◌<◌, ◌≡◌, ◌≤◌,
}
use linklint.Punycode.{digits, threshold}
use linklint.Punycode.Encode.{cons_some, encode_digit, encode_integer}

threshold-pos : (k bias : ℕ) → 1 ≤ threshold k bias
threshold-pos k bias = ground arith

cons_some-some : (c : ℕ) (o : Option Text) → is_none o ≡ false → is_none (cons_some c o) ≡ false
cons_some-some c none h = h
cons_some-some c (some cs) h = refl

-- Fuel above the delta is enough.
pub encode_integer-some :
    (fuel q k bias : ℕ) → q < fuel → is_none (encode_integer fuel q k bias) ≡ false
unfolding encode_integer
encode_integer-some zero q k bias h = absurd (omega arith)
encode_integer-some (suc fuel) q k bias h =
    let t = threshold k bias in
    elim (Bool-cases (ltb q t)) [
      | inl last ↦ rw last refl
      | inr more ↦ rw more (
          cons_some-some (encode_digit (t + (q - t) % (digits - t)))
            (encode_integer fuel ((q - t) / (digits - t)) (k + digits) bias)
            (encode_integer-some fuel ((q - t) / (digits - t)) (k + digits) bias (
              smaller q t ((q - t) / (digits - t)) fuel more (threshold-pos k bias)
                (div-le_self (q - t) (digits - t)) h)))
    ]
  where
    smaller : (q t r fuel : ℕ) → ltb q t ≡ false → 1 ≤ t → r ≤ q - t → q < suc fuel → r < fuel
    smaller q t r fuel a b c d = ground arith
