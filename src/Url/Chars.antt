-- ===== src/Url/Chars.antt =====
-- packages/core/src/unicode/format-chars.ts, and the host classes of parse/raw-parts.ts. The Unicode
-- tables are those of the regular expression engine: parameters.
use linklint.Common.{
  Bool, List, Text, [], all, any, codes, contains, drop_last, ends_in, false, if◌then◌else◌,
  is_empty, is_space, leb, not, split, text_eq, ℕ, ◌&&◌, ◌*◌, ◌++◌, ◌+◌, ◌-◌, ◌||◌, ◌∷◌,
}

-- `\p{Cc}\p{Cf}` and `\p{L}\p{M}\p{N}`, of a code point.
pub record Classes : Type 0 where
  pub control_or_format : ℕ → Bool
  pub letter_mark_number : ℕ → Bool

abbrev pub is_high_surrogate : ℕ → Bool
is_high_surrogate c = leb 0xd800 c && leb c 0xdbff

abbrev pub is_low_surrogate : ℕ → Bool
is_low_surrogate c = leb 0xdc00 c && leb c 0xdfff

-- What iterating over a string gives: one unit, or the two of a surrogate pair.
unfoldable pub characters : Text → List Text
characters [] = []
characters (a ∷ []) = (a ∷ []) ∷ []
characters (a ∷ b ∷ rest) =
    let pair = (a ∷ b ∷ []) ∷ characters rest in
    let single = (a ∷ []) ∷ characters (b ∷ rest) in
    if is_high_surrogate a && is_low_surrogate b then pair else single

-- `codePointAt(0)`.
unfoldable pub code_point : Text → ℕ
code_point [] = 0
code_point (a ∷ []) = a
code_point (a ∷ b ∷ rest) = (a - 0xd800) * 0x400 + (b - 0xdc00) + 0x10000

-- `ILLEGAL_HOST_RE`
abbrev pub is_illegal : ℕ → Bool
is_illegal c = is_space c || contains c (codes "<>\"{}|\\^`")

module _ (classes : Classes) where
  unfoldable pub is_invisible : Text → Bool
  unfolding code_point
  is_invisible ch = classes.control_or_format (code_point ch)

  unfoldable pub visible : List Text → Text
  unfolding is_invisible
  visible [] = []
  visible (ch ∷ chs) = let rest = visible chs in if not (is_invisible ch) then ch ++ rest else rest

  unfoldable pub strip_invisible : Text → Text
  unfolding visible characters
  strip_invisible input = visible (characters input)

  -- `HOST_CHARS_RE`, of a text that is not empty.
  abbrev pub is_host_char : Text → Bool
  is_host_char ch =
      classes.letter_mark_number (code_point ch)
      || text_eq ch (codes ".")
      || text_eq ch (codes "_")
      || text_eq ch (codes "%")
      || text_eq ch (codes "-")

  unfoldable pub host_is_valid : Text → Bool
  unfolding strip_invisible split
  host_is_valid raw_host =
      let clean = strip_invisible raw_host in
      if is_empty clean
      then false
      else if any is_illegal clean
      then false
      else if not (all is_host_char (characters clean))
      then false
      else not (any is_empty (split b'.' (if ends_in b'.' clean then drop_last clean else clean)))
