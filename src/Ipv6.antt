-- ===== src/Ipv6.antt =====
-- packages/core/src/parse/ip.ts: the recognition of IPv6 literals, their canonical spelling, and the
-- IPv4 address behind a transition prefix.
pub mod Hextets
pub mod Doubles
pub mod ZeroRuns
pub mod Ranges
pub mod Spelling
pub mod Canonical
use linklint.Common.{
  Bool, List, Option, Text, [], all, codes, contains, drop, false, get_or, if◌then◌else◌, is_digit,
  is_empty, join, leb, length, lower_ascii, ltb, map, none, not, replicate, some, split,
  starts_with, suc, take, text_eq, ℕ, ◌%◌, ◌&&◌, ◌*◌, ◌++◌, ◌+◌, ◌-◌, ◌/◌, ◌==◌, ◌^◌, ◌||◌, ◌∷◌,
}
use linklint.Ipv4.{is_hex_digit, parse_int, to_dotted}

pub record EmbeddedIpv4 : Type 0 where
  pub address : Text
  pub mechanism : Text

-- The two optional fields are one.
pub record Ipv6Analysis : Type 0 where
  pub obfuscated : Bool
  pub canonical : Text
  pub embedded_ipv4 : Option EmbeddedIpv4

pub record Wrapper : Type 0 where
  pub hextets : List ℕ
  pub mechanism : Text
  pub exclude_low : List ℕ

abbrev pub low32_wrappers : List Wrapper
low32_wrappers =
    record {
      hextets = 0 ∷ 0 ∷ 0 ∷ 0 ∷ 0 ∷ 0xffff ∷ [];
      mechanism = codes "IPv4-mapped prefix ::ffff:0:0/96";
      exclude_low = [];
    }
    ∷ record {
      hextets = 0x64 ∷ 0xff9b ∷ 0 ∷ 0 ∷ 0 ∷ 0 ∷ [];
      mechanism = codes "NAT64 well-known prefix 64:ff9b::/96 (RFC 6052)";
      exclude_low = [];
    }
    ∷ record {
      hextets = 0x64 ∷ 0xff9b ∷ 1 ∷ 0 ∷ 0 ∷ 0 ∷ [];
      mechanism = codes "NAT64 local-use prefix 64:ff9b:1::/48 (RFC 8215)";
      exclude_low = [];
    }
    ∷ record {
      hextets = 0 ∷ 0 ∷ 0 ∷ 0 ∷ 0 ∷ 0 ∷ [];
      mechanism = codes "IPv4-compatible prefix ::/96 (deprecated by RFC 4291)";
      exclude_low = 0 ∷ 1 ∷ [];
    }
    ∷ []

-- `(groups[6] << 16) | groups[7]` of hextets.
low_bits : List ℕ → ℕ
low_bits groups = get_or groups 6 0 * 2 ^ 16 + get_or groups 7 0

unwrap_in : List ℕ → List Wrapper → Option EmbeddedIpv4
unwrap_in groups [] = none
unwrap_in groups (wrapper ∷ wrappers) =
    let rest = unwrap_in groups wrappers in
    if not (text_eq (take 6 groups) wrapper.hextets)
    then rest
    else if contains (low_bits groups) wrapper.exclude_low
    then none
    else some (record { address = to_dotted (low_bits groups); mechanism = wrapper.mechanism })

unfoldable pub unwrap_low32_ipv4 : List ℕ → Option EmbeddedIpv4
unfolding unwrap_in low_bits to_dotted
unwrap_low32_ipv4 groups = unwrap_in groups low32_wrappers

-- The loop of `parseStrictDottedQuad`.
quad_value : ℕ → List Text → Option ℕ
unfolding parse_int
quad_value value [] = some value
quad_value value (part ∷ parts) =
    let n = parse_int 10 0 part in
    let rest = quad_value (value * 256 + n) parts in
    if not (leb 1 (length part) && leb (length part) 3 && all is_digit part)
    then none
    else if ltb 1 (length part) && starts_with (codes "0") part
    then none
    else if ltb 255 n
    then none
    else rest

parse_strict_dotted_quad : Text → Option ℕ
unfolding quad_value
parse_strict_dotted_quad s =
    if not (length (split b'.' s) == 4) then none else quad_value 0 (split b'.' s)

abbrev pub with_group : ℕ → Option (List ℕ) → Option (List ℕ)
with_group group none = none
with_group group (some groups) = some (group ∷ groups)

abbrev pub quad_groups : Option ℕ → Option (List ℕ)
quad_groups none = none
quad_groups (some v4) = some (v4 / 2 ^ 16 ∷ (v4 % 2 ^ 16) ∷ [])

unfoldable pub parse_groups : List Text → Option (List ℕ)
unfolding parse_strict_dotted_quad parse_int
parse_groups [] = some []
parse_groups (p ∷ ps) =
    let rest = with_group (parse_int 16 0 p) (parse_groups ps) in
    if contains b'.' p
    then if not (is_empty ps) then none else quad_groups (parse_strict_dotted_quad p)
    else if not (leb 1 (length p) && leb (length p) 4 && all is_hex_digit p)
    then none
    else rest

unfoldable pub parse_hextets : Text → Option (List ℕ)
unfolding parse_groups
parse_hextets s = if is_empty s then some [] else parse_groups (split b':' s)

-- The variables of the search for the longest run of zeros. `best_start` is -1 at first in the
-- source, and is read only once it is set; `cur_start` is none for -1.
pub record ZeroSearch : Type 0 where
  pub best_start : ℕ
  pub best_len : ℕ
  pub cur_start : Option ℕ
  pub cur_len : ℕ

abbrev pub start_or : Option ℕ → ℕ → ℕ
start_or none i = i
start_or (some start) i = start

abbrev grown : ℕ → ℕ → ZeroSearch → ZeroSearch
grown start len runs =
    if ltb runs.best_len len
    then record { best_start = start; best_len = len; cur_start = some start; cur_len = len }
    else record runs { cur_start = some start; cur_len = len }

unfoldable pub next_run : ℕ → ℕ → ZeroSearch → ZeroSearch
next_run i group runs =
    if group == 0
    then grown (start_or runs.cur_start i) (suc runs.cur_len) runs
    else record runs { cur_start = none; cur_len = 0 }

unfoldable pub runs_from : ℕ → List ℕ → ZeroSearch → ZeroSearch
unfolding next_run
runs_from i [] runs = runs
runs_from i (group ∷ groups) runs = runs_from (suc i) groups (next_run i group runs)

abbrev pub search_start : ZeroSearch
search_start = record { best_start = 0; best_len = 0; cur_start = none; cur_len = 0 }

unfoldable pub hex_digit : ℕ → ℕ
hex_digit d = if ltb d 10 then b'0' + d else b'a' + (d - 10)

-- `toString(16)` of a hextet.
unfoldable pub to_hex : ℕ → Text
unfolding hex_digit
to_hex g =
    if ltb g 16
    then hex_digit g ∷ []
    else if ltb g 256
    then hex_digit (g / 16) ∷ hex_digit (g % 16) ∷ []
    else if ltb g 4096
    then hex_digit (g / 256) ∷ hex_digit (g / 16 % 16) ∷ hex_digit (g % 16) ∷ []
    else hex_digit (g / 4096)
      ∷ hex_digit (g / 256 % 16)
      ∷ hex_digit (g / 16 % 16)
      ∷ hex_digit (g % 16)
      ∷ []

unfoldable pub canonicalize_ipv6 : List ℕ → Text
unfolding runs_from to_hex
canonicalize_ipv6 groups =
    let best = runs_from 0 groups search_start in
    let hex = map to_hex groups in
    if ltb best.best_len 2
    then join b':' hex
    else join b':' (take best.best_start hex)
      ++ (codes "::" ++ join b':' (drop (best.best_start + best.best_len) hex))

unfoldable pub mixed_canonical_ipv6 : List ℕ → Text → Text
unfolding runs_from to_hex
mixed_canonical_ipv6 groups dotted =
    let best = runs_from 0 (take 6 groups) search_start in
    let hex = map to_hex (take 6 groups) in
    let tail = join b':' (drop (best.best_start + best.best_len) hex) in
    if ltb best.best_len 2
    then join b':' hex ++ (codes ":" ++ dotted)
    else join b':' (take best.best_start hex)
      ++ (codes "::" ++ ((if is_empty tail then [] else tail ++ codes ":") ++ dotted))

-- `(host.match(/::/g) ?? []).length`
unfoldable pub doubles : Text → ℕ
doubles [] = 0
doubles (a ∷ []) = 0
doubles (a ∷ b ∷ rest) =
    let past = suc (doubles rest) in
    let other = doubles (b ∷ rest) in if a == b':' && b == b':' then past else other

abbrev pub add_left : ℕ → Option (Text × Text) → Option (Text × Text)
add_left c none = none
add_left c (some (left, right)) = some (c ∷ left, right)

-- The two slices around the first `::`, if `indexOf` finds one.
unfoldable pub split_double : Text → Option (Text × Text)
split_double [] = none
split_double (a ∷ []) = none
split_double (a ∷ b ∷ rest) =
    let other = add_left a (split_double (b ∷ rest)) in
    if a == b':' && b == b':' then some ([], rest) else other

abbrev pub filled : Option (List ℕ) → Option (List ℕ) → Option (List ℕ)
filled (some left) (some right) =
    if leb 8 (length left + length right)
    then none
    else some (left ++ (replicate (8 - (length left + length right)) 0 ++ right))
filled (some left) none = none
filled none right = none

abbrev pub groups_of : Text → Option (Text × Text) → Option (List ℕ)
groups_of host none = parse_hextets host
groups_of host (some (left, right)) =
    if contains b'.' left then none else filled (parse_hextets left) (parse_hextets right)

abbrev pub spelled_mixed : Text → List ℕ → Option EmbeddedIpv4 → Bool
spelled_mixed lower groups none = false
spelled_mixed lower groups (some embedded) =
    text_eq lower (mixed_canonical_ipv6 groups embedded.address)

abbrev pub analysis : Text → List ℕ → Ipv6Analysis
analysis host groups = record {
  obfuscated =
      not (text_eq (lower_ascii host) (canonicalize_ipv6 groups))
      && not (spelled_mixed (lower_ascii host) groups (unwrap_low32_ipv4 groups));
  canonical = canonicalize_ipv6 groups;
  embedded_ipv4 = unwrap_low32_ipv4 groups;
}

abbrev pub of_groups : Text → Option (List ℕ) → Option Ipv6Analysis
of_groups host none = none
of_groups host (some groups) =
    if not (length groups == 8) then none else some (analysis host groups)

unfoldable pub analyze_ipv6 : Text → Option Ipv6Analysis
unfolding doubles split_double parse_hextets canonicalize_ipv6 mixed_canonical_ipv6
    unwrap_low32_ipv4
analyze_ipv6 host =
    if is_empty host || not (contains b':' host) || contains b'%' host
    then none
    else if ltb 1 (doubles host)
    then none
    else of_groups host (groups_of host (split_double host))
