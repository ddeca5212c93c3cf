-- ===== src/Url/Decode.antt =====
-- packages/core/src/parse/decode.ts: percent-decoding, repeated up to a depth.
use mathlib.Core.Path.{subst}
use linklint.Common.{
  Bool, Text, [], ap, arith, false, if_cases, if◌then◌else◌, not, refl, suc, text_eq, text_eq_iff,
  true, zero, ℕ, ◌&&◌, ◌+◌, ◌==◌, ◌∷◌, ◌≡◌, ◌≢◌, ◌≤◌,
}
use linklint.Ipv4.{is_hex_digit, parse_int}

abbrev pub default_max_decode_depth : ℕ
default_max_decode_depth = 4

-- `replace` of every `%XX`, from left to right.
unfoldable pub decode_once : Text → Text
unfolding parse_int
decode_once [] = []
decode_once (a ∷ []) = a ∷ []
decode_once (a ∷ b ∷ []) = a ∷ b ∷ []
decode_once (a ∷ b ∷ c ∷ rest) =
    let sequence = parse_int 16 0 (b ∷ c ∷ []) ∷ decode_once rest in
    let other = a ∷ decode_once (b ∷ c ∷ rest) in
    if a == b'%' && is_hex_digit b && is_hex_digit c then sequence else other

pub record BoundedDecode : Type 0 where
  pub decoded : Text
  pub passes : ℕ
  pub truncated : Bool

-- The loop, with the passes that are left.
unfoldable pub decode_loop : ℕ → Text → ℕ → BoundedDecode
unfolding decode_once
decode_loop zero cur passes = record {
  decoded = cur;
  passes = passes;
  truncated = not (text_eq (decode_once cur) cur);
}
decode_loop (suc left) cur passes =
    let next = decode_once cur in
    let rest = decode_loop left next (suc passes) in
    if text_eq next cur then record { decoded = cur; passes = passes; truncated = false } else rest

unfoldable pub bounded_decode : Text → ℕ → BoundedDecode
unfolding decode_loop
bounded_decode input max_depth = decode_loop max_depth input 0

abbrev pub decode_times : ℕ → Text → Text
decode_times zero s = s
decode_times (suc n) s = decode_times n (decode_once s)

-- What the answer says of the text, with the passes that were left.
pub record IsDecoding (input : Text) (done left : ℕ) (d : BoundedDecode) : Type 0 where
  pub extra : ℕ
  pub passes : d.passes ≡ done + extra
  pub bound : extra ≤ left
  pub decoded : d.decoded ≡ decode_times extra input
  pub stable : d.truncated ≡ false → decode_once d.decoded ≡ d.decoded
  pub cut : d.truncated ≡ true → (extra ≡ left) × (decode_once d.decoded ≢ d.decoded)

text_ne : (a b : Text) → not (text_eq a b) ≡ true → a ≢ b
text_ne a b h e =
    let same : text_eq a b ≡ true = (text_eq_iff a b).1 e in
    let clash : not true ≡ true = subst (λ (x : Bool). not x ≡ true) same h in cc

not-false : (b : Bool) → not b ≡ false → b ≡ true
not-false true h = refl
not-false false h = cc

decode_loop-IsDecoding :
    (left : ℕ) (cur : Text) (passes : ℕ) → IsDecoding cur passes left (decode_loop left cur passes)
unfolding decode_loop
decode_loop-IsDecoding zero cur passes = record {
  extra = 0;
  passes = omega arith;
  bound = omega arith;
  decoded = refl;
  stable = λ h. (text_eq_iff (decode_once cur) cur).0 (not-false _ h);
  cut = λ h. (refl, text_ne (decode_once cur) cur h);
}
decode_loop-IsDecoding (suc left) cur passes =
    if_cases (IsDecoding cur passes (suc left)) (text_eq (decode_once cur) cur)
      (λ same. record {
        extra = 0;
        passes = omega arith;
        bound = omega arith;
        decoded = refl;
        stable = λ h. (text_eq_iff (decode_once cur) cur).0 same;
        cut = λ h. cc;
      })
      (λ other.
        let rest = decode_loop-IsDecoding left (decode_once cur) (suc passes) in
        record {
          extra = suc rest.extra;
          passes = omega (arith, rest.passes);
          bound = omega (arith, rest.bound);
          decoded = rest.decoded;
          stable = rest.stable;
          cut = λ h. (ap suc (rest.cut h).0, (rest.cut h).1);
        })

-- Decoding stops after at most the depth's passes. The text that it answers is the input decoded that
-- many times; it decodes to itself unless `truncated` is set, and then all passes were used and one
-- more would change it.
pub bounded_decode-IsDecoding :
    (input : Text) (max_depth : ℕ) → IsDecoding input 0 max_depth (bounded_decode input max_depth)
unfolding bounded_decode
bounded_decode-IsDecoding input max_depth = decode_loop-IsDecoding max_depth input 0
