-- ===== src/Csv.antt =====
-- packages/online/src/mirrors/csv.ts: the lines and the fields of a feed's CSV export.
pub mod Fields
pub mod Lines
pub mod Quotes
use linklint.Common.{
  Bool, List, Option, Text, [], add_first, false, get_elem?, if◌then◌else◌, is_empty, none, some,
  trim, true, ℕ, ◌&&◌, ◌++◌, ◌==◌, ◌||◌, ◌∷◌,
}

-- The variables of `parseCsvRow`.
pub record Row : Type 0 where
  pub fields : List Text
  pub field : Text
  pub in_quotes : Bool

abbrev pub quote : ℕ
quote = b'"'

abbrev pub comma : ℕ
comma = b','

abbrev pub fresh : Row
fresh = record { fields = []; field = []; in_quotes = false }

abbrev pub add_unit : ℕ → Row → Row
add_unit c r = record r { field = r.field ++ (c ∷ []) }

abbrev pub is_quote : Option ℕ → Bool
is_quote none = false
is_quote (some c) = c == quote

-- The body of the loop on one code unit and the one after it; the flag is `i++`.
unfoldable pub at_unit : Row → ℕ → Option ℕ → Row × Bool
at_unit r c next =
    if r.in_quotes
    then if c == quote
      then if is_quote next
        then (add_unit quote r, true)
        else (record r { in_quotes = false }, false)
      else (add_unit c r, false)
    else if c == quote
    then (record r { in_quotes = true }, false)
    else if c == comma
    then (record r { fields = r.fields ++ (r.field ∷ []); field = [] }, false)
    else (add_unit c r, false)

-- The loop, where `skip` passes over the code unit that `i++` took.
unfoldable pub scan : Row → Bool → Text → Row
scan r skip [] = r
scan r true (c ∷ cs) = scan r false cs
scan r false (c ∷ cs) = let next = at_unit r c (get_elem? cs 0) in scan (next.0) (next.1) cs

abbrev pub finish : Row → Option (List Text)
finish r = if r.in_quotes then none else some (r.fields ++ (r.field ∷ []))

unfoldable pub parse_csv_row : Text → Option (List Text)
parse_csv_row line = finish (scan fresh false line)

abbrev pub lf : ℕ
lf = 10

abbrev pub cr : ℕ
cr = 13

-- `split(/\r\n|\r|\n/)`: the flag says that the code unit before is a CR that ended a line.
unfoldable pub split_lines : Bool → Text → List Text
split_lines after_cr [] = [] ∷ []
split_lines after_cr (c ∷ cs) =
    let rest = split_lines (c == cr) cs in
    if after_cr && c == lf then rest else if c == cr || c == lf then [] ∷ rest else add_first c rest

abbrev pub is_blank : Text → Bool
is_blank line = is_empty (trim line)

abbrev pub keep_lines : List Text → List Text
keep_lines [] = []
keep_lines (line ∷ rest) = let kept = keep_lines rest in if is_blank line then kept else line ∷ kept

unfoldable pub split_csv_lines : Text → List Text
split_csv_lines body = keep_lines (split_lines false body)
