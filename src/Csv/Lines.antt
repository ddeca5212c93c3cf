-- ===== src/Csv/Lines.antt =====
-- The lines that the export's text is split into (packages/online/src/mirrors/csv.ts).
use linklint.Common.{
  All, Bool, List, Text, [], ap, arith, contains, false, map, not, refl, true, ◌&&◌, ◌++◌, ◌∙◌, ◌∷◌,
  ◌≡◌,
}
use linklint.Csv.{cr, is_blank, keep_lines, lf, split_csv_lines, split_lines}

-- How a line may end.
pub data Ending : Type 0 where
  crlf : Ending
  only_cr : Ending
  only_lf : Ending

abbrev pub ending : Ending → Text
ending crlf = cr ∷ lf ∷ []
ending only_cr = cr ∷ []
ending only_lf = lf ∷ []

-- A text of lines, each with its ending.
abbrev pub lines_text : List (Text × Ending) → Text
lines_text [] = []
lines_text (line ∷ rest) = line.0 ++ (ending line.1 ++ lines_text rest)

-- A line that the parser keeps as one: no CR, no LF, and not blank.
abbrev pub is_line : Text → Bool
is_line line = not (contains cr line) && not (contains lf line) && not (is_blank line)

abbrev ends_cr : Ending → Bool
ends_cr crlf = false
ends_cr only_cr = true
ends_cr only_lf = false

split_lines-append :
    (line rest : Text) (e : Ending)
    → contains cr line ≡ false
    → contains lf line ≡ false
    → split_lines false (line ++ (ending e ++ rest)) ≡ line ∷ split_lines (ends_cr e) rest
unfolding split_lines
split_lines-append [] rest crlf hc hl = refl
split_lines-append [] rest only_cr hc hl = refl
split_lines-append [] rest only_lf hc hl = refl
split_lines-append (c ∷ cs) rest e hc hl =
    let ih = split_lines-append cs rest e (ground arith) (ground arith) in ground arith

-- A line that is not blank has a first code unit, which is no LF.
split_lines_after :
    (a : Bool) (line rest : Text)
    → is_line line ≡ true
    → split_lines a (line ++ rest) ≡ split_lines false (line ++ rest)
unfolding split_lines
split_lines_after a [] rest h = absurd (ground arith)
split_lines_after a (c ∷ cs) rest h = ground arith

split_lines-lines_text :
    (a : Bool) (lines : List (Text × Ending))
    → All (λ l. is_line l.0 ≡ true) lines
    → split_lines a (lines_text lines) ≡ map (λ l. l.0) lines ++ ([] ∷ [])
split_lines-lines_text a [] h = unfold split_lines in refl
split_lines-lines_text a (l ∷ ls) h =
    let tail = ending l.1 ++ lines_text ls in
    split_lines_after a (l.0) tail (h.0)
    ∙ split_lines-append (l.0) (lines_text ls) (l.1) (ground arith) (ground arith)
    ∙ ap (λ rest. l.0 ∷ rest) (split_lines-lines_text (ends_cr (l.1)) ls (h.1))

keep_lines-lines :
    (lines : List (Text × Ending))
    → All (λ l. is_line l.0 ≡ true) lines
    → keep_lines (map (λ l. l.0) lines ++ ([] ∷ [])) ≡ map (λ l. l.0) lines
keep_lines-lines [] h = refl
keep_lines-lines (l ∷ ls) h = let ih = keep_lines-lines ls (h.1) in ground (arith, h.0)

-- Lines that are not blank come back in order from a text in which each ends in CRLF, in CR or in
-- LF, whatever the mixture.
pub split_csv_lines-lines_text :
    (lines : List (Text × Ending))
    → All (λ l. is_line l.0 ≡ true) lines
    → split_csv_lines (lines_text lines) ≡ map (λ l. l.0) lines
unfolding split_csv_lines
split_csv_lines-lines_text lines h =
    ap keep_lines (split_lines-lines_text false lines h) ∙ keep_lines-lines lines h
