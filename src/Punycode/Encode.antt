-- ===== src/Punycode/Encode.antt =====
-- packages/core/src/unicode/punycode.ts: `encodeAceLabel`, and `classifyAceLabel` of a label that is
-- in lower case. The loop of an integer takes a round of fuel for each unit of the delta and one
-- more, and the outer loop one for each code point.
pub mod Integers
pub mod Ends
pub mod Classify
use linklint.Common.{
  Option, Text, [], any, codes, if◌then◌else◌, is_empty, leb, length, ltb, none, some, suc, text_eq,
  zero, ℕ, ◌%◌, ◌&&◌, ◌*◌, ◌++◌, ◌+◌, ◌-◌, ◌/◌, ◌==◌, ◌∷◌,
}
use linklint.Punycode.{
  Decoding, PunycodeSubCode, adapt, decode_ace_label, decoded, digits, failed, maxint, out_of_fuel,
  threshold,
}

abbrev pub encode_digit : ℕ → ℕ
encode_digit d = if ltb d 26 then d + 0x61 else d - 26 + 0x30

abbrev pub cons_some : ℕ → Option Text → Option Text
cons_some c none = none
cons_some c (some cs) = some (c ∷ cs)

-- The loop over `q`.
unfoldable pub encode_integer : ℕ → (q k bias : ℕ) → Option Text
encode_integer zero q k bias = none
encode_integer (suc fuel) q k bias =
    let t = threshold k bias in
    let rest = encode_integer fuel ((q - t) / (digits - t)) (k + digits) bias in
    if ltb q t
    then some (encode_digit q ∷ [])
    else cons_some (encode_digit (t + (q - t) % (digits - t))) rest

pub record Encoder : Type 0 where
  pub out : Text
  pub delta : ℕ
  pub bias : ℕ
  pub handled : ℕ

unfoldable pub with_integer : ℕ → Encoder → Option Text → Option Encoder
unfolding adapt
with_integer basic e none = none
with_integer basic e (some digits') = some record {
  out = e.out ++ digits';
  delta = 0;
  bias = adapt e.delta (e.handled + 1) (e.handled == basic);
  handled = e.handled + 1;
}

-- One code point in a round for `n`.
abbrev pub at_code : (n basic cp : ℕ) → Encoder → Option Encoder
at_code n basic cp e =
    if ltb cp n
    then some (record e { delta = e.delta + 1 })
    else if cp == n
    then with_integer basic e (encode_integer (suc e.delta) e.delta digits e.bias)
    else some e

abbrev pub then_round : Option Encoder → (Encoder → Option Encoder) → Option Encoder
then_round none next = none
then_round (some e) next = next e

unfoldable pub encode_round : (n basic : ℕ) → Text → Encoder → Option Encoder
unfolding encode_integer with_integer
encode_round n basic [] e = some e
encode_round n basic (cp ∷ cps) e = then_round (at_code n basic cp e) (encode_round n basic cps)

-- The least code point that is not below `n`.
abbrev pub least_from : ℕ → Text → ℕ → ℕ
least_from n [] m = m
least_from n (cp ∷ cps) m = least_from n cps (if leb n cp && ltb cp m then cp else m)

unfoldable pub encode_from : ℕ → Text → (basic n : ℕ) → Encoder → Option Encoder
unfolding encode_round
encode_from zero cps basic n e = if ltb e.handled (length cps) then none else some e
encode_from (suc fuel) cps basic n e =
    let m = least_from n cps maxint in
    let moved = record e { delta = e.delta + (m - n) * (e.handled + 1) } in
    let rest =
      then_round (encode_round m basic cps moved)
        (λ e'. encode_from fuel cps basic (m + 1) (record e' { delta = e'.delta + 1 })) in
    if ltb e.handled (length cps) then rest else some e

abbrev pub basic_codes : Text → Text
basic_codes [] = []
basic_codes (cp ∷ cps) = if ltb cp 0x80 then cp ∷ basic_codes cps else basic_codes cps

-- What a label encodes to: nothing where all its code points are basic.
pub data Encoding : Type 0 where
  encoding_out_of_fuel no_encoding : Encoding
  encoded : Text → Encoding

abbrev pub encoding_of : Option Encoder → Encoding
encoding_of none = encoding_out_of_fuel
encoding_of (some e) = encoded e.out

unfoldable pub encode_ace_label : Text → Encoding
unfolding encode_from
encode_ace_label cps =
    let basics = basic_codes cps in
    let start = codes "xn--" ++ basics ++ (if is_empty basics then [] else b'-' ∷ []) in
    if any (λ c. leb 0x80 c) cps
    then encoding_of (
        encode_from (length cps) cps (length basics) 128
          (record { out = start; delta = 0; bias = 72; handled = length basics }))
    else no_encoding

pub data Classification : Type 0 where
  unclassified canonical_label non_canonical_encoding : Classification
  malformed : PunycodeSubCode → Classification

abbrev pub at_encoding : Text → Encoding → Classification
at_encoding lower encoding_out_of_fuel = unclassified
at_encoding lower no_encoding = non_canonical_encoding
at_encoding lower (encoded out) =
    if text_eq out lower then canonical_label else non_canonical_encoding

unfoldable pub at_decoding : Text → Decoding → Classification
unfolding encode_ace_label
at_decoding lower out_of_fuel = unclassified
at_decoding lower (failed code) = malformed code
at_decoding lower (decoded cps) = at_encoding lower (encode_ace_label cps)

unfoldable pub classify_ace_label : Text → Classification
unfolding decode_ace_label at_decoding
classify_ace_label lower = at_decoding lower (decode_ace_label lower)
