-- ===== src/Ipv6/Hextets.antt =====
-- Hextets in hexadecimal, written and read back by packages/core/src/parse/ip.ts.
use linklint.Common.{
  All, Bool, Bool-cases, List, Text, [], all, arith, contains, false, inl, inr, is_empty, join, leb,
  length, le→leb, lower_unit, ltb, ltb→lt, map, refl, some, split-join, true, ℕ, ◌%◌, ◌&&◌, ◌++◌,
  ◌/◌, ◌<◌, ◌==◌, ◌^◌, ◌∷◌, ◌≡◌, ◌≤◌,
}
use linklint.Ipv4.{digit_value, is_hex_digit, parse_int}
use linklint.Ipv6.{hex_digit, parse_groups, parse_hextets, to_hex}

-- A lower-case digit, neither a separator nor a letter with another case.
abbrev pub IsHexUnit : ℕ → Type 0
IsHexUnit c =
    (is_hex_digit c ≡ true)
    × (lower_unit c ≡ c)
    × ((c == b':') ≡ false)
    × ((c == b'.') ≡ false)
    × ((c == b'%') ≡ false)

abbrev pub IsHextet : ℕ → Type 0
IsHextet g = g < 2 ^ 16

hex_digit-IsHexUnit : (d : ℕ) → d < 16 → IsHexUnit (hex_digit d)
unfolding hex_digit
hex_digit-IsHexUnit d h = ground arith

digit_value-hex_digit : (d : ℕ) → d < 16 → digit_value (hex_digit d) ≡ d
unfolding digit_value hex_digit
digit_value-hex_digit d h = ground arith

-- The four lengths.
to_hex-cases :
    (P : Text → Type 0) (g : ℕ)
    → (g < 16 → P (hex_digit g ∷ []))
    → (g < 256 → P (hex_digit (g / 16) ∷ hex_digit (g % 16) ∷ []))
    → (g < 4096 → P (hex_digit (g / 256) ∷ hex_digit (g / 16 % 16) ∷ hex_digit (g % 16) ∷ []))
    → P (
        hex_digit (g / 4096)
        ∷ hex_digit (g / 256 % 16)
        ∷ hex_digit (g / 16 % 16)
        ∷ hex_digit (g % 16)
        ∷ [])
    → P (to_hex g)
unfolding to_hex
to_hex-cases P g one two three four = elim (Bool-cases (ltb g 16)) [
  | inl small ↦ rw small (one (ltb→lt g 16 small))
  | inr more ↦ elim (Bool-cases (ltb g 256)) [
    | inl small ↦ rw (more, small) (two (ltb→lt g 256 small))
    | inr most ↦ elim (Bool-cases (ltb g 4096)) [
      | inl small ↦ rw (more, most, small) (three (ltb→lt g 4096 small))
      | inr all_four ↦ rw (more, most, all_four) four
    ]
  ]
]

pub to_hex-IsHexUnit : (g : ℕ) → IsHextet g → All IsHexUnit (to_hex g)
to_hex-IsHexUnit g h =
    let u = λ (d : ℕ) (small : d < 16). hex_digit-IsHexUnit d small in
    to_hex-cases (All IsHexUnit) g (λ small. (u g small, tt))
      (λ small. (u (g / 16) (omega arith), (u (g % 16) (omega arith), tt)))
      (λ small. (
        u (g / 256) (omega arith),
        (u (g / 16 % 16) (omega arith), (u (g % 16) (omega arith), tt)),
      ))
      (
        u (g / 4096) (omega arith),
        (
          u (g / 256 % 16) (omega arith),
          (u (g / 16 % 16) (omega arith), (u (g % 16) (omega arith), tt)),
        ),
      )

pub to_hex-length : (g : ℕ) → (1 ≤ length (to_hex g)) × (length (to_hex g) ≤ 4)
unfolding to_hex
to_hex-length g = ground arith

parse_int-to_hex : (g : ℕ) → IsHextet g → parse_int 16 0 (to_hex g) ≡ g
unfolding parse_int
parse_int-to_hex g h =
    to_hex-cases (λ s. parse_int 16 0 s ≡ g) g
      (λ small. omega (arith, digit_value-hex_digit g small))
      (λ small. omega (
        arith,
        digit_value-hex_digit (g / 16) (omega arith),
        digit_value-hex_digit (g % 16) (omega arith),
      ))
      (λ small. omega (
        arith,
        digit_value-hex_digit (g / 256) (omega arith),
        digit_value-hex_digit (g / 16 % 16) (omega arith),
        digit_value-hex_digit (g % 16) (omega arith),
      ))
      (omega (
        arith,
        digit_value-hex_digit (g / 4096) (omega arith),
        digit_value-hex_digit (g / 256 % 16) (omega arith),
        digit_value-hex_digit (g / 16 % 16) (omega arith),
        digit_value-hex_digit (g % 16) (omega arith),
      ))

all-IsHexUnit : (s : Text) → All IsHexUnit s → all is_hex_digit s ≡ true
all-IsHexUnit [] h = refl
all-IsHexUnit (c ∷ cs) h = rw (h.0.0, all-IsHexUnit cs h.1)

pub contains-map :
    (P : ℕ → Type 0) (c : ℕ) (s : Text)
    → ((d : ℕ) → P d → (d == c) ≡ false)
    → All P s
    → contains c s ≡ false
contains-map P c [] f h = refl
contains-map P c (d ∷ ds) f h = rw (f d h.0, contains-map P c ds f h.1)

abbrev hextet_ok : Text → Bool
hextet_ok p = leb 1 (length p) && leb (length p) 4 && all is_hex_digit p

hextet_ok-to_hex : (g : ℕ) → IsHextet g → hextet_ok (to_hex g) ≡ true
hextet_ok-to_hex g h =
    let n = to_hex-length g in
    rw (le→leb 1 (length (to_hex g)) n.0, le→leb (length (to_hex g)) 4 n.1)
      (all-IsHexUnit (to_hex g) (to_hex-IsHexUnit g h))

parse_groups-to_hex :
    (groups : List ℕ) → All IsHextet groups → parse_groups (map to_hex groups) ≡ some groups
unfolding parse_groups
parse_groups-to_hex [] h = refl
parse_groups-to_hex (g ∷ gs) h =
    let dotless : contains b'.' (to_hex g) ≡ false =
      contains-map IsHexUnit b'.' (to_hex g) (λ d u. u.3) (to_hex-IsHexUnit g h.0) in
    rw (dotless, hextet_ok-to_hex g h.0, parse_int-to_hex g h.0, parse_groups-to_hex gs h.1)

colonless :
    (groups : List ℕ) → All IsHextet groups → All (λ p. contains b':' p ≡ false) (map to_hex groups)
colonless [] h = tt
colonless (g ∷ gs) h =
    (contains-map IsHexUnit b':' (to_hex g) (λ d u. u.2) (to_hex-IsHexUnit g h.0), colonless gs h.1)

not_empty : (s rest : Text) → 1 ≤ length s → is_empty (s ++ rest) ≡ false
not_empty [] rest h = absurd (omega arith)
not_empty (c ∷ cs) rest h = refl

join_not_empty : (p : Text) (ps : List Text) → 1 ≤ length p → is_empty (join b':' (p ∷ ps)) ≡ false
join_not_empty (c ∷ cs) [] h = refl
join_not_empty (c ∷ cs) (q ∷ qs) h = refl
join_not_empty [] ps h = absurd (omega arith)

-- Hextets that are written come back.
pub parse_hextets-join :
    (groups : List ℕ)
    → All IsHextet groups
    → parse_hextets (join b':' (map to_hex groups)) ≡ some groups
unfolding parse_hextets
parse_hextets-join [] h = refl
parse_hextets-join (g ∷ gs) h =
    rw
      (
        join_not_empty (to_hex g) (map to_hex gs) (to_hex-length g).0,
        split-join b':' (to_hex g) (map to_hex gs) (colonless (g ∷ gs) h),
      )
      (parse_groups-to_hex (g ∷ gs) h)
