-- ===== src/Ipv6/Ranges.antt =====
-- The groups that ip.ts reads are hextets.
use linklint.Common.{
  ==_iff, All, All-append, Bool, Bool-cases, List, Option, Text, [], all, arith, contains, false,
  inl, inr, is_empty, leb, leb→le, length, none, refl, replicate, some, split, suc, true, zero, ℕ,
  ◌&&◌, ◌*◌, ◌+◌, ◌-◌, ◌<◌, ◌==◌, ◌^◌, ◌∷◌, ◌≡◌, ◌≤◌,
}
use linklint.Ipv4.{digit_value, is_hex_digit, parse_int}
use linklint.Ipv6.{
  filled, groups_of, parse_groups, parse_hextets, parse_strict_dotted_quad, quad_groups, quad_value,
  with_group,
}
use linklint.Ipv6.Hextets.{IsHextet}

digit_value-lt : (c : ℕ) → is_hex_digit c ≡ true → digit_value c < 16
unfolding digit_value
digit_value-lt c h = ground arith

both_true : (a b : Bool) → (a && b) ≡ true → (a ≡ true) × (b ≡ true)
both_true true b h = (refl, h)
both_true false b h = cc

All-digits : (s : Text) → all is_hex_digit s ≡ true → All (λ c. digit_value c < 16) s
All-digits [] h = tt
All-digits (c ∷ cs) h =
    let parts = both_true (is_hex_digit c) (all is_hex_digit cs) h in
    (digit_value-lt c parts.0, All-digits cs parts.1)

-- Up to four digits.
parse_int_bound :
    (s : Text) → length s ≤ 4 → All (λ c. digit_value c < 16) s → parse_int 16 0 s < 2 ^ 16
unfolding parse_int
parse_int_bound [] n h = omega arith
parse_int_bound (a ∷ []) n h = omega arith
parse_int_bound (a ∷ b ∷ []) n h = omega arith
parse_int_bound (a ∷ b ∷ c ∷ []) n h = omega arith
parse_int_bound (a ∷ b ∷ c ∷ d ∷ []) n h = omega arith
parse_int_bound (a ∷ b ∷ c ∷ d ∷ e ∷ rest) n h = absurd (omega arith)

parse_int-lt :
    (s : Text)
    → (leb 1 (length s) && leb (length s) 4 && all is_hex_digit s) ≡ true
    → parse_int 16 0 s < 2 ^ 16
parse_int-lt s h =
    let outer = both_true (leb 1 (length s) && leb (length s) 4) (all is_hex_digit s) h in
    let lengths = both_true (leb 1 (length s)) (leb (length s) 4) outer.0 in
    parse_int_bound s (leb→le (length s) 4 lengths.1) (All-digits s outer.1)

quad_value-step :
    (value : ℕ) (part : Text) (parts : List Text) (v : ℕ)
    → quad_value value (part ∷ parts) ≡ some v
    → (n : ℕ) × (n ≤ 255) × (quad_value (value * 256 + n) parts ≡ some v)
unfolding quad_value
quad_value-step value part parts v h = (parse_int 10 0 part, ground arith, ground arith)

quad_value-done : (value v : ℕ) → quad_value value [] ≡ some v → v ≡ value
unfolding quad_value
quad_value-done value v h = ground arith

quad_value-lt :
    (parts : List Text) (v : ℕ) → length parts ≡ 4 → quad_value 0 parts ≡ some v → v < 2 ^ 32
quad_value-lt [] v n h = absurd (omega arith)
quad_value-lt (a ∷ []) v n h = absurd (omega arith)
quad_value-lt (a ∷ b ∷ []) v n h = absurd (omega arith)
quad_value-lt (a ∷ b ∷ c ∷ []) v n h = absurd (omega arith)
quad_value-lt (a ∷ b ∷ c ∷ d ∷ []) v n h =
    let (w, w_le, hw) = quad_value-step 0 a (b ∷ c ∷ d ∷ []) v h in
    let (x, x_le, hx) = quad_value-step (0 * 256 + w) b (c ∷ d ∷ []) v hw in
    let (y, y_le, hy) = quad_value-step ((0 * 256 + w) * 256 + x) c (d ∷ []) v hx in
    let (z, z_le, hz) = quad_value-step (((0 * 256 + w) * 256 + x) * 256 + y) d [] v hy in
    omega (arith, quad_value-done ((((0 * 256 + w) * 256 + x) * 256 + y) * 256 + z) v hz)
quad_value-lt (a ∷ b ∷ c ∷ d ∷ e ∷ rest) v n h = absurd (omega arith)

parse_strict_dotted_quad-lt : (s : Text) (v : ℕ) → parse_strict_dotted_quad s ≡ some v → v < 2 ^ 32
unfolding parse_strict_dotted_quad
parse_strict_dotted_quad-lt s v h = elim (Bool-cases (length (split b'.' s) == 4)) [
  | inl four ↦ quad_value-lt (split b'.' s) v ((==_iff _ 4).0 four) (ground arith)
  | inr other ↦ ground arith
]

abbrev pub Hextets : Option (List ℕ) → Type 0
Hextets none = Unit
Hextets (some groups) = All IsHextet groups

quad_groups-Hextets :
    (s : Text) (m : Option ℕ) → parse_strict_dotted_quad s ≡ m → Hextets (quad_groups m)
quad_groups-Hextets s none e = tt
quad_groups-Hextets s (some v) e =
    let small : v < 2 ^ 32 = parse_strict_dotted_quad-lt s v e in (omega arith, (omega arith, tt))

with_group-Hextets :
    (g : ℕ) (rest : Option (List ℕ)) → IsHextet g → Hextets rest → Hextets (with_group g rest)
with_group-Hextets g none h k = tt
with_group-Hextets g (some groups) h k = (h, k)

parse_groups-Hextets : (parts : List Text) → Hextets (parse_groups parts)
unfolding parse_groups
parse_groups-Hextets [] = tt
parse_groups-Hextets (p ∷ ps) = elim (Bool-cases (contains b'.' p)) [
  | inl dotted ↦ elim (Bool-cases (is_empty ps)) [
    | inl last ↦ rw (dotted, last) (quad_groups-Hextets p (parse_strict_dotted_quad p) refl)
    | inr more ↦ rw (dotted, more) tt
  ]
  | inr plain ↦ elim (Bool-cases (leb 1 (length p) && leb (length p) 4 && all is_hex_digit p)) [
    | inl ok ↦
        rw (plain, ok)
          (with_group-Hextets (parse_int 16 0 p) (parse_groups ps) (parse_int-lt p ok)
            (parse_groups-Hextets ps))
    | inr bad ↦ rw (plain, bad) tt
  ]
]

parse_hextets-Hextets : (s : Text) → Hextets (parse_hextets s)
unfolding parse_hextets
parse_hextets-Hextets s = elim (Bool-cases (is_empty s)) [
  | inl nothing ↦ rw nothing tt
  | inr some_text ↦ rw some_text (parse_groups-Hextets (split b':' s))
]

zero_groups : (n : ℕ) → All IsHextet (replicate n 0)
zero_groups zero = tt
zero_groups (suc n) = (omega arith, zero_groups n)

filled-Hextets : (l r : Option (List ℕ)) → Hextets l → Hextets r → Hextets (filled l r)
filled-Hextets none r h k = tt
filled-Hextets (some l) none h k = tt
filled-Hextets (some l) (some r) h k = elim (Bool-cases (leb 8 (length l + length r))) [
  | inl full ↦ rw full tt
  | inr room ↦ rw room (
      All-append IsHextet l _ h
        (All-append IsHextet (replicate (8 - (length l + length r)) 0) r (zero_groups _) k))
]

pub groups_of-Hextets : (host : Text) (cut : Option (Text × Text)) → Hextets (groups_of host cut)
groups_of-Hextets host none = parse_hextets-Hextets host
groups_of-Hextets host (some (left, right)) = elim (Bool-cases (contains b'.' left)) [
  | inl dotted ↦ rw dotted tt
  | inr plain ↦ rw plain (
      filled-Hextets (parse_hextets left) (parse_hextets right) (parse_hextets-Hextets left)
        (parse_hextets-Hextets right))
]
