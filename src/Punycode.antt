-- ===== src/Punycode.antt =====
-- packages/core/src/unicode/punycode.ts: `decodeAceLabel`, which decodes one `xn--` label. The inner
-- loop reads one code unit a round; the outer loop takes a round of fuel for each code unit.
pub mod Adapt
pub mod Decoded
pub mod Encode
use linklint.Common.{
  Bool, Option, Text, [], contains, drop, if◌then◌else◌, leb, length, ltb, none, not, some, suc,
  zero, ℕ, ◌%◌, ◌&&◌, ◌*◌, ◌+◌, ◌-◌, ◌/◌, ◌==◌, ◌∷◌,
}

-- The sub-codes that decoding throws; `Classification` has the one for the round trip.
pub data PunycodeSubCode : Type 0 where
  empty_ace_payload invalid_punycode_digit truncated_punycode_input : PunycodeSubCode
  punycode_overflow decoded_code_point_out_of_range : PunycodeSubCode

-- The parameters of RFC 3492.
abbrev pub digits : ℕ
digits = 36

abbrev pub maxint : ℕ
maxint = 0x7fffffff

abbrev pub decode_digit : ℕ → Option ℕ
decode_digit c =
    if leb 0x30 c && leb c 0x39
    then some (c - 0x30 + 26)
    else if leb 0x61 c && leb c 0x7a
    then some (c - 0x61)
    else if leb 0x41 c && leb c 0x5a
    then some (c - 0x41)
    else none

abbrev pub threshold : (k bias : ℕ) → ℕ
threshold k bias = if leb k bias then 1 else if leb (bias + 26) k then 26 else k - bias

-- The loop of `adapt`, with its variables `delta` and `k`.
unfoldable pub shrink : ℕ → ℕ → ℕ → ℕ × ℕ
shrink zero delta k = (delta, k)
shrink (suc fuel) delta k =
    let rest = shrink fuel (delta / 35) (k + 36) in if ltb 455 delta then rest else (delta, k)

-- `delta >> 1` is the half of a delta below 2^31.
unfoldable pub adapt : ℕ → ℕ → Bool → ℕ
unfolding shrink
adapt delta numpoints first =
    let scaled = if first then delta / 700 else delta / 2 in
    let start = scaled + scaled / numpoints in
    let shrunk = shrink start start 0 in shrunk.1 + 36 * shrunk.0 / (shrunk.0 + 38)

abbrev pub is_unicode_scalar : ℕ → Bool
is_unicode_scalar n = leb n 0x10ffff && not (leb 0xd800 n && leb n 0xdfff)

-- What one variable-length integer ends in: the variable `i` and the units after it.
pub data Integer : Type 0 where
  refused : PunycodeSubCode → Integer
  integer : (i : ℕ) (rest : Text) → Integer

module _ (bias : ℕ) where
  -- The inner loop's body, with what follows it.
  abbrev pub at_digit : Option ℕ → Text → (k i w : ℕ) → (ℕ → ℕ → Integer) → Integer
  at_digit none rest k i w next = refused invalid_punycode_digit
  at_digit (some digit) rest k i w next =
      let t = threshold k bias in
      if ltb ((maxint - i) / w) digit
      then refused punycode_overflow
      else if ltb digit t
      then integer (i + digit * w) rest
      else if ltb (maxint / (digits - t)) w
      then refused punycode_overflow
      else next (i + digit * w) (w * (digits - t))

  unfoldable pub read_integer : Text → (k i w : ℕ) → Integer
  read_integer [] k i w = refused truncated_punycode_input
  read_integer (c ∷ cs) k i w = at_digit (decode_digit c) cs k i w (read_integer cs (k + digits))

pub data Decoding : Type 0 where
  out_of_fuel : Decoding
  failed : PunycodeSubCode → Decoding
  decoded : Text → Decoding

-- `output.splice(i, 0, n)`
abbrev pub insert_at : ℕ → ℕ → Text → Text
insert_at zero n output = n ∷ output
insert_at (suc i) n [] = n ∷ []
insert_at (suc i) n (c ∷ cs) = c ∷ insert_at i n cs

-- The rest of the outer loop's body, with the next round.
unfoldable pub at_integer :
    Integer → (output : Text) → (n i : ℕ) → (Text → Text → (n i bias : ℕ) → Decoding) → Decoding
unfolding adapt
at_integer (refused code) output n i next = failed code
at_integer (integer total rest) output n i next =
    let out_len = length output + 1 in
    let increment = total / out_len in
    let position = total % out_len in
    if ltb (maxint - n) increment
    then failed punycode_overflow
    else if not (is_unicode_scalar (n + increment))
    then failed decoded_code_point_out_of_range
    else next rest (insert_at position (n + increment) output) (n + increment) (position + 1)
        (adapt (total - i) out_len (i == 0))

unfoldable pub decode_from : ℕ → Text → Text → (n i bias : ℕ) → Decoding
unfolding read_integer at_integer
decode_from fuel [] output n i bias = decoded output
decode_from zero (c ∷ cs) output n i bias = out_of_fuel
decode_from (suc fuel) (c ∷ cs) output n i bias =
    at_integer (read_integer bias (c ∷ cs) digits i 1) output n i (decode_from fuel)

-- The basic code points before the last hyphen, where there is one, and the units after it.
abbrev pub split_payload : Text → Text × Text
split_payload [] = ([], [])
split_payload (c ∷ cs) =
    let rest = split_payload cs in
    if contains b'-' cs then (c ∷ rest.0, rest.1) else if c == b'-' then ([], cs) else ([], c ∷ cs)

unfoldable pub decode_payload : Text → Decoding
unfolding decode_from
decode_payload [] = failed empty_ace_payload
decode_payload (c ∷ cs) =
    let parts = split_payload (c ∷ cs) in decode_from (length parts.1) parts.1 parts.0 128 0 72

-- The label starts with `xn--`.
unfoldable pub decode_ace_label : Text → Decoding
unfolding decode_payload
decode_ace_label label = decode_payload (drop 4 label)
