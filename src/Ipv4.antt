-- ===== src/Ipv4.antt =====
-- packages/core/src/parse/ip.ts: the recognition of IPv4 in its inet_aton forms. `parseInt` is
-- exact here; where the source's rounds or overflows, the value is out of range on every path.
pub mod Canonical
use linklint.Common.{
  Bool, List, Option, Text, [], all, any, drop_last, ends_in, if◌then◌else◌, is_digit, join, leb,
  length, ltb, none, not, some, split, true, ℕ, ◌%◌, ◌&&◌, ◌*◌, ◌+◌, ◌-◌, ◌/◌, ◌==◌, ◌^◌, ◌||◌, ◌∷◌,
}

pub record Ipv4Analysis : Type 0 where
  pub obfuscated : Bool
  pub canonical : Text

pub record Part : Type 0 where
  pub value : ℕ
  pub non_decimal : Bool

abbrev is_octal_digit : ℕ → Bool
is_octal_digit c = leb b'0' c && leb c b'7'

abbrev pub is_hex_digit : ℕ → Bool
is_hex_digit c = is_digit c || (leb b'a' c && leb c b'f') || (leb b'A' c && leb c b'F')

unfoldable pub digit_value : ℕ → ℕ
digit_value c = if is_digit c then c - b'0' else if leb b'a' c then c - b'a' + 10 else c - b'A' + 10

-- `parseInt(part, base)` of digits of that base.
unfoldable pub parse_int : ℕ → ℕ → Text → ℕ
unfolding digit_value
parse_int base n [] = n
parse_int base n (c ∷ cs) = parse_int base (n * base + digit_value c) cs

-- The three expressions, tried in order.
after_zero : Text → Option Part
after_zero [] = none
after_zero (x ∷ []) = none
after_zero (x ∷ c ∷ cs) =
    if (x == b'x' || x == b'X') && all is_hex_digit (c ∷ cs)
    then some (record { value = parse_int 16 0 (c ∷ cs); non_decimal = true })
    else none

hex_part : Text → Option Part
unfolding after_zero
hex_part [] = none
hex_part (z ∷ rest) = if z == b'0' then after_zero rest else none

octal_part : Text → Option Part
octal_part [] = none
octal_part (z ∷ []) = none
octal_part (z ∷ c ∷ cs) =
    if z == b'0' && all is_octal_digit (c ∷ cs)
    then some (record { value = parse_int 8 0 (z ∷ c ∷ cs); non_decimal = true })
    else none

decimal_part : Text → Option Part
decimal_part [] = none
decimal_part (c ∷ cs) =
    if all is_digit (c ∷ cs)
    then some (record {
      value = parse_int 10 0 (c ∷ cs);
      non_decimal = ltb 1 (length (c ∷ cs)) && (c == b'0');
    })
    else none

abbrev or_else : Option Part → Option Part → Option Part
or_else none other = other
or_else (some p) other = some p

unfoldable pub parse_part : Text → Option Part
unfolding hex_part octal_part decimal_part parse_int digit_value
parse_part part = or_else (hex_part part) (or_else (octal_part part) (decimal_part part))

-- An octet in decimal.
unfoldable pub decimal : ℕ → Text
decimal n =
    if ltb n 10
    then (b'0' + n) ∷ []
    else if ltb n 100
    then (b'0' + n / 10) ∷ (b'0' + n % 10) ∷ []
    else (b'0' + n / 100) ∷ (b'0' + n / 10 % 10) ∷ (b'0' + n % 10) ∷ []

unfoldable pub to_dotted : ℕ → Text
unfolding decimal
to_dotted n = join b'.' (
    decimal (n / 2 ^ 24 % 256)
    ∷ decimal (n / 2 ^ 16 % 256)
    ∷ decimal (n / 2 ^ 8 % 256)
    ∷ decimal (n % 256)
    ∷ [])

unfoldable pub strip_trailing_root_dot : Text → Text
strip_trailing_root_dot host =
    if ltb 1 (length host) && ends_in b'.' host then drop_last host else host

abbrev cons_part : Option Part → Option (List Part) → Option (List Part)
cons_part (some part) (some parts) = some (part ∷ parts)
cons_part (some part) none = none
cons_part none parts = none

-- `parts.map(parsePart)`, none where a part is null.
parse_parts : List Text → Option (List Part)
parse_parts [] = some []
parse_parts (p ∷ ps) = cons_part (parse_part p) (parse_parts ps)

-- The loop over the leading parts, with the last part and the bytes that it fills. The test of the
-- last part comes before the loop in the source; both answer null.
pack : ℕ → ℕ → List Part → Option ℕ
pack full bytes [] = none
pack full bytes (p ∷ []) =
    if leb (2 ^ (8 * bytes)) p.value then none else some (full * 2 ^ (8 * bytes) + p.value)
pack full bytes (p ∷ q ∷ ps) =
    let rest = pack (full * 256 + p.value) (bytes - 1) (q ∷ ps) in
    if ltb 0xff p.value then none else rest

of_packed : List Part → Option ℕ → Option Ipv4Analysis
of_packed parts none = none
of_packed parts (some full) =
    if ltb 0xffffffff full
    then none
    else some (record {
      obfuscated = any (λ p. p.non_decimal) parts || not (length parts == 4);
      canonical = to_dotted full;
    })

of_parts : Option (List Part) → Option Ipv4Analysis
unfolding of_packed pack
of_parts none = none
of_parts (some parts) = of_packed parts (pack 0 4 parts)

unfoldable pub analyze_ipv4 : Text → Option Ipv4Analysis
unfolding of_parts parse_parts
analyze_ipv4 host =
    let parts = split b'.' (strip_trailing_root_dot host) in
    if ltb 4 (length parts) then none else of_parts (parse_parts parts)
