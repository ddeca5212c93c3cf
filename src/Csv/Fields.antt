-- ===== src/Csv/Fields.antt =====
-- The fields that a row of a CSV export gives back (packages/online/src/mirrors/csv.ts).
use mathlib.Core.Path.{subst}
use mathlib.Core.List.{append_assoc, append-nil}
use linklint.Common.{
  All, Bool, List, Text, [], ap, arith, contains, false, get_elem?, if◌then◌else◌, map, not, refl,
  some, true, ◌++◌, ◌==◌, ◌||◌, ◌∙◌, ◌∷◌, ◌≡◌,
}
use linklint.Csv.{Row, at_unit, comma, finish, is_quote, parse_csv_row, quote, scan}

-- RFC 4180: a field as it is written, with every quote doubled where it is quoted.
pub record Cell : Type 0 where
  pub quoted : Bool
  pub content : Text

doubled : Text → Text
doubled [] = []
doubled (c ∷ cs) = let rest = doubled cs in if c == quote then quote ∷ quote ∷ rest else c ∷ rest

written_as : Bool → Text → Text
unfolding doubled
written_as true content = quote ∷ doubled content ++ (quote ∷ [])
written_as false content = content

unfoldable pub written : Cell → Text
unfolding written_as
written cell = written_as cell.quoted cell.content

unfoldable pub written_row : Cell → List Cell → Text
written_row cell [] = written cell
written_row cell (next ∷ rest) = written cell ++ (comma ∷ written_row next rest)

-- A field that is not quoted has no quote and no comma.
abbrev pub is_plain : Text → Bool
is_plain content = not (contains quote content || contains comma content)

abbrev pub is_writable : Cell → Bool
is_writable cell = cell.quoted || is_plain cell.content

abbrev reading : List Text → Text → Bool → Row
reading fields field in_quotes = record { fields = fields; field = field; in_quotes = in_quotes }

scan-doubled :
    (fields : List Text) (field content rest : Text)
    → is_quote (get_elem? rest 0) ≡ false
    → scan (reading fields field true) false (doubled content ++ (quote ∷ rest))
      ≡ scan (reading fields (field ++ content) false) false rest
unfolding scan at_unit doubled
scan-doubled fields field [] rest h = ground (arith, h, append-nil field)
scan-doubled fields field (c ∷ cs) rest h =
    let ih = scan-doubled fields (field ++ (c ∷ [])) cs rest h in
    ground (arith, append_assoc field (c ∷ []) cs)

scan-plain :
    (fields : List Text) (field content rest : Text)
    → is_plain content ≡ true
    → scan (reading fields field false) false (content ++ rest)
      ≡ scan (reading fields (field ++ content) false) false rest
unfolding scan at_unit
scan-plain fields field [] rest h = ground (arith, append-nil field)
scan-plain fields field (c ∷ cs) rest h =
    let ih = scan-plain fields (field ++ (c ∷ [])) cs rest (ground arith) in
    ground (arith, append_assoc field (c ∷ []) cs)

at_comma :
    (fields : List Text) (field rest : Text)
    → scan (reading fields field false) false (comma ∷ rest)
      ≡ scan (reading (fields ++ (field ∷ [])) [] false) false rest
unfolding scan at_unit
at_comma fields field rest = refl

scan-written_as :
    (fields : List Text) (q : Bool) (content rest : Text)
    → q || is_plain content ≡ true
    → is_quote (get_elem? rest 0) ≡ false
    → scan (reading fields [] false) false (written_as q content ++ rest)
      ≡ scan (reading fields content false) false rest
unfolding scan at_unit written_as
scan-written_as fields true content rest w h =
    rw (append_assoc (doubled content) (quote ∷ []) rest) (scan-doubled fields [] content rest h)
scan-written_as fields false content rest w h = scan-plain fields [] content rest w

scan-written :
    (fields : List Text) (cell : Cell) (rest : Text)
    → is_writable cell ≡ true
    → is_quote (get_elem? rest 0) ≡ false
    → scan (reading fields [] false) false (written cell ++ rest)
      ≡ scan (reading fields cell.content false) false rest
unfolding written
scan-written fields cell = scan-written_as fields cell.quoted cell.content

scan-written_row :
    (fields : List Text) (cell : Cell) (cells : List Cell)
    → All (λ x. is_writable x ≡ true) (cell ∷ cells)
    → finish (scan (reading fields [] false) false (written_row cell cells))
      ≡ some (fields ++ map (λ x. x.content) (cell ∷ cells))
unfolding scan written_row
scan-written_row fields cell [] w =
    let e = scan-written fields cell [] (w.0) refl in
    subst
      (λ t. finish (scan (reading fields [] false) false t) ≡ some (fields ++ (cell.content ∷ [])))
      (append-nil (written cell)) (ap finish e)
scan-written_row fields cell (next ∷ cells) w =
    ap finish (scan-written fields cell (comma ∷ written_row next cells) (w.0) refl)
    ∙ ap finish (at_comma fields (cell.content) (written_row next cells))
    ∙ scan-written_row (fields ++ (cell.content ∷ [])) next cells (w.1)
    ∙ ap some (append_assoc fields (cell.content ∷ []) (map (λ x. x.content) (next ∷ cells)))

-- Fields that are written as RFC 4180 has it, each quoted with its quotes doubled, or bare where it
-- has no quote and no comma, are read back as they were: commas and quotes inside a field included.
pub parse_csv_row-written_row :
    (cell : Cell) (cells : List Cell)
    → All (λ x. is_writable x ≡ true) (cell ∷ cells)
    → parse_csv_row (written_row cell cells) ≡ some (map (λ x. x.content) (cell ∷ cells))
unfolding parse_csv_row
parse_csv_row-written_row cell cells w = scan-written_row [] cell cells w
