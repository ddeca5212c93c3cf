-- ===== src/Csv/Quotes.antt =====
-- The rows that the parser refuses (packages/online/src/mirrors/csv.ts).
use linklint.Common.{
  Bool, Text, [], arith, false, if◌then◌else◌, none, not, refl, suc, true, zero, ℕ, ◌++◌, ◌==◌, ◌↔◌,
  ◌∷◌, ◌≡◌,
}
use linklint.Csv.{Row, add_unit, at_unit, fresh, parse_csv_row, quote, scan}

-- The quotes of a line.
unfoldable pub quotes : Text → ℕ
quotes [] = 0
quotes (c ∷ cs) = let rest = quotes cs in if c == quote then suc rest else rest

unfoldable pub is_odd : ℕ → Bool
is_odd zero = false
is_odd (suc n) = not (is_odd n)

abbrev flip_if : Bool → Bool → Bool
flip_if true q = not q
flip_if false q = q

scan-in_quotes :
    (r : Row) (t : Text) → (scan r false t).in_quotes ≡ flip_if (is_odd (quotes t)) (r.in_quotes)
unfolding scan at_unit quotes is_odd
scan-in_quotes r [] = refl
scan-in_quotes r (c ∷ []) = ground arith
scan-in_quotes r (c ∷ d ∷ cs) =
    let both = scan-in_quotes (add_unit quote r) cs in
    let plain = scan-in_quotes (add_unit c r) (d ∷ cs) in
    let closed = scan-in_quotes (record r { in_quotes = false }) (d ∷ cs) in
    let opened = scan-in_quotes (record r { in_quotes = true }) (d ∷ cs) in
    let pushed =
      scan-in_quotes (record r { fields = r.fields ++ (r.field ∷ []); field = [] }) (d ∷ cs) in
    ground arith

-- A line is refused exactly when it has an odd number of quotes, so that one is never closed; every
-- other line gives its fields.
pub parse_csv_row-none_iff :
    (line : Text) → (parse_csv_row line ≡ none) ↔ (is_odd (quotes line) ≡ true)
unfolding parse_csv_row
parse_csv_row-none_iff line = ground (arith, scan-in_quotes fresh line)
