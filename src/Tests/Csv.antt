-- ===== src/Tests/Csv.antt =====
-- Runs of packages/online/src/mirrors/csv.ts.
use linklint.Common.{List, Text, [], codes, false, none, refl, some, true, ◌↔◌, ◌∷◌, ◌≡◌}
use linklint.Csv.{at_unit, parse_csv_row, scan}
use linklint.Csv.Fields.{Cell, parse_csv_row-written_row, written_row}
use linklint.Csv.Lines.{Ending, crlf, only_cr, only_lf}
use linklint.Csv.Quotes.{is_odd, parse_csv_row-none_iff, quotes}

abbrev cells : List Cell
cells =
    record { quoted = true; content = codes "a,\"b\"" }
    ∷ record { quoted = false; content = [] }
    ∷ record { quoted = true; content = [] }
    ∷ []

parse_rows :
    (parse_csv_row (codes "1,\"a \"\"b\"\"\",") ≡ some (codes "1" ∷ codes "a \"b\"" ∷ [] ∷ []))
    × (parse_csv_row (codes "1,\"a") ≡ none)
    × (parse_csv_row [] ≡ some ([] ∷ []))
unfolding parse_csv_row scan at_unit
parse_rows = (refl, refl, refl)

parse_csv_row-written_row_example :
    parse_csv_row (written_row (record { quoted = false; content = codes "7" }) cells)
    ≡ some (codes "7" ∷ codes "a,\"b\"" ∷ [] ∷ [] ∷ [])
parse_csv_row-written_row_example =
    parse_csv_row-written_row (record { quoted = false; content = codes "7" }) cells
      (refl, (refl, (refl, (refl, tt))))

parse_csv_row-none_iff_example :
    (parse_csv_row (codes "1,\"a") ≡ none) ↔ (is_odd (quotes (codes "1,\"a")) ≡ true)
parse_csv_row-none_iff_example = parse_csv_row-none_iff (codes "1,\"a")

abbrev lines : List (Text × Ending)
lines = (codes "id,url", crlf) ∷ (codes "1,x", only_cr) ∷ (codes "2,y", only_lf) ∷ []
